-- ===== src/Roundtrip/Returns.antt =====
-- The loop of `Roundtrip` ends.
use sysc_wayland.Base.{
  ℕ, zero, suc, ◌+◌, ◌≤◌, ◌<◌, ◌≡◌, refl, ap, false, List, [], ◌∷◌, Option, none, some, length,
  arith, Bool-cases, Option-cases, inl, inr, ◌==◌,
}
use mathlib.Core.Path.{subst}
use sysc_wayland.World.{
  World, M, Kind, Error, Outcome, done, panicked, state, state-then_pure, roundtrip_failed,
  unable_to_sync, mark_zombie, set_id, set_context, callback, alloc,
}
use sysc_wayland.Wire.{Arg, word}
use sysc_wayland.Ids.{register, install, new_object, count_up, pop_free}
use sysc_wayland.Send.Beside.{input-write_msg}
use sysc_wayland.Socket.Kernel.{Unix}
use sysc_wayland.Dispatch.Interfaces.{Methods}
use sysc_wayland.Bindings.Events.{Event}
use sysc_wayland.Bindings.Objects.{set_handler}
use sysc_wayland.Bindings.Requests.{write, send, create}
use sysc_wayland.Bindings.Requests.Display.{sync}
use sysc_wayland.Bindings.Keeps.{Keeps, Keeps-bind, Keeps-gets, Keeps-read}
use sysc_wayland.Bindings.Keeps.Inputs.{ReadsOn, ReadsOn-IsFrame}
use sysc_wayland.Bindings.Keeps.Dispatched.{Respects}
use sysc_wayland.Bindings.Keeps.Whole.{dispatch-Consumes}
use sysc_wayland.Roundtrip.Turns.{Turns, start, turn, started, Ends, EndsOn}
use sysc_wayland.Roundtrip.Answers.{roundtrip-EndsOn}
use sysc_wayland.Roundtrip.{
  set_done, with_done, dispatch_done, destroyed, await, wait, after_sync, roundtrip,
}

count_up-ReadsOn : (p : ℕ) (w : World) → ReadsOn w (state (count_up p w))
unfolding count_up install set_id set_context
count_up-ReadsOn p w = ground arith

register-ReadsOn : (p : ℕ) (w : World) → ReadsOn w (state (register p w))
unfolding register install set_id set_context
register-ReadsOn p w =
    let popped = pop_free w.objects w.free_ids in
    let w' = record w { ctx = record (w.ctx) { free_ids = popped.1 } } in
    elim (Bool-cases (popped.0 == 0)) [
      | inl nothing ↦ rw nothing (count_up-ReadsOn p w')
      | inr reused ↦ rw reused (omega arith)
    ]

new_object-Keeps : (kind : Kind) → Keeps ReadsOn (new_object kind)
unfolding new_object register alloc
new_object-Keeps kind = record {
  keeps = λ w.
      let p = w.next_ref in
      let w' = state (alloc kind w) in
      rw (state-then_pure (register p) p w') (register-ReadsOn p w');
}

write-Keeps : (bytes oob : List ℕ) → Keeps ReadsOn (write bytes oob)
unfolding write
write-Keeps bytes oob = record { keeps = λ w. rw (input-write_msg bytes oob w) (omega arith) }

-- A request adds no input.
create-Keeps :
    (kind : Kind) (p opcode : ℕ) (args : ℕ → World → List Arg)
    → Keeps ReadsOn (create kind p opcode args)
unfolding create send
create-Keeps kind p opcode args =
    let frame = ReadsOn-IsFrame in
    search (Keeps-bind, Keeps-gets, Keeps-read, new_object-Keeps, write-Keeps) depth 40

sync-ReadsOn : (p : ℕ) (w : World) → ReadsOn w (state (sync p w))
unfolding sync
sync-ReadsOn p w = (create-Keeps callback p 0 (λ id w. word id ∷ [])).keeps w

module _ (unix : Unix) (on_event : ℕ → Event → M (Unit {0})) (foreign : Methods)
    (calm : (p : ℕ) (e : Event) → Keeps ReadsOn (on_event p e))
    (respects : Respects ReadsOn foreign) where
  with_done-Keeps : (q p : ℕ) (e : Event) → Keeps ReadsOn (with_done q on_event p e)
  unfolding with_done set_done
  with_done-Keeps q p e = elim (Bool-cases (q == p)) [
    | inl own ↦ rw own (record { keeps = λ w. omega arith })
    | inr other ↦ rw other (calm p e)
  ]

  -- With more fuel than there are reads to come, the loop ends.
  await-ends :
      (fuel q : ℕ) (w : World)
      → length w.input < fuel
      → (r : Option Error × World) × (await unix on_event foreign fuel q w ≡ some r)
  unfolding await dispatch_done
  await-ends zero q w enough = absurd (omega arith)
  await-ends (suc fuel) q w enough =
      let r = dispatch_done unix on_event foreign q w in
      let (_, less) =
        dispatch-Consumes unix (with_done q on_event) foreign (with_done-Keeps q) respects w in
      elim (Bool-cases (w.finished q)) [
        | inl over ↦ ((none, w), rw over refl)
        | inr on ↦ elim (Option-cases r.0) [
          | inr (e, failed) ↦ ((some (roundtrip_failed e), r.1), rw (on, failed) refl)
          | inl fine ↦
              let (s, ends) = await-ends fuel q r.1 (omega (arith, less fine, enough)) in
              (s, rw (on, fine) ends)
        ]
      ]

  wait-ends :
      (fuel q : ℕ) (w : World)
      → length w.input < fuel
      → (r : Outcome (Option Error)) × (wait unix on_event foreign fuel q w ≡ some r)
  unfolding wait destroyed set_done set_handler
  wait-ends fuel q w enough =
      let (r, ends) = await-ends fuel q (set_handler q 0 (set_done q false w)) enough in
      (done r.0 (mark_zombie q r.1), ap (destroyed q) ends)

  after_sync-ends :
      (fuel : ℕ) (o : Outcome (ℕ × Option Error))
      → length (state o).input < fuel
      → (r : Outcome (Option Error)) × (after_sync unix on_event foreign fuel o ≡ some r)
  unfolding after_sync
  after_sync-ends fuel (done (q, some e) w) enough = (done (some (unable_to_sync e)) w, refl)
  after_sync-ends fuel (done (q, none) w) enough = wait-ends fuel q w enough
  after_sync-ends fuel (panicked x w) enough = (panicked x w, refl)

  -- Each of the calls takes a read from the socket.
  Turns-reads :
      (q n : ℕ) (w u : World)
      → Turns unix on_event foreign q n w u
      → n + length u.input ≤ length w.input
  unfolding dispatch_done
  Turns-reads q n w u start = omega arith
  Turns-reads q n w u' (turn {n = m} {u = u} on e t) =
      let (_, less) =
        dispatch-Consumes unix (with_done q on_event) foreign (with_done-Keeps q) respects w in
      let same = ap (λ r. length r.1.input) e in
      omega (arith, less (ap (λ r. r.0) e), same, Turns-reads q m u u' t)

  loop-reads :
      (p q n : ℕ) (w v u : World)
      → sync p w ≡ done (q, none) v
      → Turns unix on_event foreign q n (started q v) u
      → n ≤ length w.input
  unfolding set_done set_handler
  loop-reads p q n w v u synced t =
      let same = ap (λ o. length (state o).input) synced in
      omega (arith, sync-ReadsOn p w, same, Turns-reads q n (started q v) u t)

  Ends-reads :
      (p n : ℕ) (w : World) (o : Outcome (Option Error))
      → Ends unix on_event foreign p w n o
      → n ≤ length w.input
  unfolding Ends
  Ends-reads p n w (panicked x w') (z, e) = omega arith
  Ends-reads p n w (done none w') (q, v, u, e, t, rest, over, same) = loop-reads p q n w v u e t
  Ends-reads p n w (done (some e) w') (inl (z, q, x, rest, failed)) = omega arith
  Ends-reads p n w (done (some e) w') (inr (q, v, u, x, u', synced, t, on, d, same, marked)) =
      loop-reads p q n w v u synced t

  -- `Roundtrip` on a connection that the peer closes behind the reads that are to come: it ends, in
  -- one of the ways of `Ends`, so that it panics only where `Sync` panics; and it ends behind at most
  -- as many calls of `Dispatch` that return nil as there are reads to come, and at most one call that
  -- fails. This holds whatever the reads bring, also if the done event is not among it. It is assumed
  -- that the handlers of the application and the methods of the types that are not modelled add no
  -- input. A peer that stays silent without closing, for which `Dispatch` blocks, is not modelled.
  pub roundtrip-Ends :
      (fuel p : ℕ) (w : World)
      → length w.input < fuel
      → (o : Outcome (Option Error)) × (n : ℕ) × (roundtrip unix on_event foreign fuel p w ≡ some o)
        × Ends unix on_event foreign p w n o
        × (n ≤ length w.input)
  unfolding roundtrip EndsOn
  roundtrip-Ends fuel p w enough =
      let (o, ends) = after_sync-ends fuel (sync p w) (omega (arith, sync-ReadsOn p w, enough)) in
      let (n, how) =
        subst (EndsOn unix on_event foreign fuel p w) ends
          (roundtrip-EndsOn unix on_event foreign fuel p w) in
      (o, n, ends, how, Ends-reads p n w o how)
