-- ===== src/Roundtrip/Answers.antt =====
-- How `Roundtrip` of client/display.go ends.
use sysc_wayland.Base.{
  ℕ, zero, suc, ◌<◌, ◌≡◌, refl, ap, true, false, Option, none, some, arith, Bool-cases,
  Option-cases, inl, inr,
}
use sysc_wayland.World.{World, M, Proxy, Error, Outcome, done, panicked, update, roundtrip_failed}
use sysc_wayland.Socket.Kernel.{Unix}
use sysc_wayland.Dispatch.Interfaces.{Methods}
use sysc_wayland.Bindings.Events.{Event}
use sysc_wayland.Bindings.Objects.{set_handler}
use sysc_wayland.Bindings.Requests.Display.{sync}
use sysc_wayland.Roundtrip.Turns.{Turns, start, turn, started, EndsOn, Ends}
use sysc_wayland.Roundtrip.{set_done, dispatch_done, destroyed, await, wait, after_sync, roundtrip}

pub update_same : (f : ℕ → Proxy) (p : ℕ) (v : Proxy) → update f p v p ≡ v
update_same f p v = ground arith

done_false : (q : ℕ) (v : World) → (started q v).finished q ≡ false
unfolding set_done set_handler
done_false q v = ground arith

module _ (unix : Unix) (on_event : ℕ → Event → M (Unit {0})) (foreign : Methods) where
  -- How the loop for the callback `q` ends, from the state `w`.
  LoopEnds : ℕ → ℕ → World → Option (Option Error × World) → Type 0
  LoopEnds fuel q w none =
      (u : World) × Turns unix on_event foreign q fuel w u × (u.finished q ≡ false)
  LoopEnds fuel q w (some (none, u)) =
      (n : ℕ) × Turns unix on_event foreign q n w u × (u.finished q ≡ true)
  LoopEnds fuel q w (some (some e, u')) =
      (n : ℕ) × (u : World) × (x : Error) × Turns unix on_event foreign q n w u
      × (u.finished q ≡ false)
      × (dispatch_done unix on_event foreign q u ≡ (some x, u'))
      × (e ≡ roundtrip_failed x)

  turned :
      (fuel q : ℕ) (w u : World) (r : Option (Option Error × World))
      → w.finished q ≡ false
      → dispatch_done unix on_event foreign q w ≡ (none, u)
      → LoopEnds fuel q u r
      → LoopEnds (suc fuel) q w r
  unfolding LoopEnds
  turned fuel q w u none on e (u', t, off) = (u', turn on e t, off)
  turned fuel q w u (some (none, u')) on e (n, t, over) = (suc n, turn on e t, over)
  turned fuel q w u (some (some x, u')) on e (n, v, y, t, off, d, same) =
      (suc n, v, y, turn on e t, off, d, same)

  await-LoopEnds :
      (fuel q : ℕ) (w : World) → LoopEnds fuel q w (await unix on_event foreign fuel q w)
  unfolding await LoopEnds
  await-LoopEnds zero q w = elim (Bool-cases (w.finished q)) [
    | inl over ↦ rw over (0, start, over)
    | inr on ↦ rw on (w, start, on)
  ]
  await-LoopEnds (suc fuel) q w =
      let r = dispatch_done unix on_event foreign q w in
      elim (Bool-cases (w.finished q)) [
        | inl over ↦ rw over (0, start, over)
        | inr on ↦ elim (Option-cases r.0) [
          | inr (e, failed) ↦ rw (on, failed) (0, w, e, start, on, ap (λ x. (x, r.1)) failed, refl)
          | inl fine ↦
              rw (on, fine)
                (turned fuel q w r.1 _ on (ap (λ x. (x, r.1)) fine) (await-LoopEnds fuel q r.1))
        ]
      ]

  -- The loop does not end with `done` before it has started.
  some_turn :
      (q n : ℕ) (w u : World)
      → Turns unix on_event foreign q n w u
      → w.finished q ≡ false
      → u.finished q ≡ true
      → 0 < n
  some_turn q n w u start on over = cc
  some_turn q n w u (turn e f t) on over = omega arith

  destroyed-EndsOn :
      (fuel p q : ℕ) (w v : World) (r : Option (Option Error × World))
      → sync p w ≡ done (q, none) v
      → LoopEnds fuel q (started q v) r
      → EndsOn unix on_event foreign fuel p w (destroyed q r)
  unfolding destroyed LoopEnds EndsOn Ends
  destroyed-EndsOn fuel p q w v none e (u, t, on) = (q, v, u, e, t, on)
  destroyed-EndsOn fuel p q w v (some (none, u)) e (n, t, over) =
      (n, (q, v, u, e, t, some_turn q n (started q v) u t (done_false q v) over, over, refl))
  destroyed-EndsOn fuel p q w v (some (some x, u')) e (n, u, y, t, on, d, same) =
      (n, inr (q, v, u, y, u', e, t, on, d, same, refl))

  after_sync-EndsOn :
      (fuel p : ℕ) (w : World) (o : Outcome (ℕ × Option Error))
      → sync p w ≡ o
      → EndsOn unix on_event foreign fuel p w (after_sync unix on_event foreign fuel o)
  unfolding after_sync wait EndsOn Ends
  after_sync-EndsOn fuel p w (done (q, some x) w') e = (0, inl (refl, q, x, refl, e))
  after_sync-EndsOn fuel p w (done (q, none) v) e =
      destroyed-EndsOn fuel p q w v _ e (await-LoopEnds fuel q (started q v))
  after_sync-EndsOn fuel p w (panicked x w') e = (0, (refl, e))

  -- Every way in which `Roundtrip` ends. It panics only where `Sync` panics. If `Sync` fails, its
  -- error comes back, wrapped, and `Dispatch` is not called. Otherwise `done` is false at first, and
  -- `Dispatch` is called as long as it is false and the calls return nil: `Roundtrip` returns nil
  -- if a call, at least one, has made it true, and the error of the first call that fails, wrapped;
  -- in both cases the callback is destroyed in the state that the last call left. Where the fuel of
  -- the model runs out, all of the calls have returned nil, and `done` is still false.
  pub roundtrip-EndsOn :
      (fuel p : ℕ) (w : World)
      → EndsOn unix on_event foreign fuel p w (roundtrip unix on_event foreign fuel p w)
  unfolding roundtrip
  roundtrip-EndsOn fuel p w = after_sync-EndsOn fuel p w (sync p w) refl
