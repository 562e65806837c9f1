-- ===== src/Dispatch/Fatality.antt =====
-- The sticky error: what `Dispatch` of client/context.go returns, and what every later call returns.
use sysc_wayland.Base.{
  ℕ, ◌≡◌, ◌∙◌, refl, ap, sym, Bool, true, false, not, ◌&&◌, List, Option, none, some, ◌⊎◌, inl, inr,
  Bool-cases, Option-cases, arith,
}
use sysc_wayland.World.{
  World, Error, unable_to_read, Outcome, done, panicked, is_zombie, is_read_timeout,
}
use sysc_wayland.Ids.{lookup_proxy}
use sysc_wayland.Fatal.{set_fatal}
use sysc_wayland.Socket.Kernel.{Unix}
use sysc_wayland.Socket.{Message, error, frame, read_msg}
use sysc_wayland.Socket.Descriptors.{set_fatal_lem}
use sysc_wayland.Send.{write_msg}
use sysc_wayland.Dispatch.Interfaces.{Methods}
use sysc_wayland.Dispatch.{
  sticky, recover, is_display, route_fd, absorb, handle, deliver, dispatch_message, dispatch,
}

abbrev timed : Option Error → Bool
timed none = false
timed (some e) = is_read_timeout e

false_is_not_true : false ≡ true → ⊥
false_is_not_true e = cc

-- What is returned is the sticky error, or an idle timeout.
abbrev Settles : Option Error × World → Type 0
Settles (r, w) = (w.fatal_err ≡ r) ⊎ ((e : Error) × (r ≡ some e) × (is_read_timeout e ≡ true))

sticky-Settles : (e : Error) (w : World) → Settles (sticky e w)
unfolding sticky set_fatal
sticky-Settles e w = elim (Option-cases w.fatal_err) [
  | inl alive ↦
      let (same, stuck, _, _) = set_fatal_lem e w alive in inl (stuck ∙ ap some (sym same))
  | inr (old, dead) ↦ inl (old_stays old dead)
]
  where
    old_stays :
        (old : Error)
        → w.fatal_err ≡ some old
        → (set_fatal e w).1.fatal_err ≡ some (set_fatal e w).0
    old_stays old dead = rw (dead, set_fatal) dead

recover-Settles :
    (sender opcode : ℕ) (fd : Option ℕ) (o : Outcome (Unit {0}))
    → Settles (recover sender opcode fd o)
unfolding recover
recover-Settles sender opcode fd (done _ w) = inl refl
recover-Settles sender opcode fd (panicked p w) = sticky-Settles _ _

write_msg_dead :
    (b oob : List ℕ) (w : World) (e : Error)
    → w.fatal_err ≡ some e
    → write_msg b oob w ≡ (some e, w)
unfolding write_msg
write_msg_dead b oob w e dead = ground arith

module _ (unix : Unix) (methods : Methods) where
  absorb-Settles :
      (p sender opcode : ℕ) (fd : Option ℕ) (body : List ℕ) (w : World)
      → Settles (absorb unix methods p sender opcode fd body w)
  unfolding absorb
  absorb-Settles p sender opcode fd body w =
      elim (Option-cases (methods.absorb_new_ids (w.heap p).kind)) [
        | inl e ↦ rw (e, absorb) (inl refl)
        | inr (m, e) ↦ rw (e, absorb) (recover-Settles sender opcode none _)
      ]

  handle-Settles :
      (p sender opcode : ℕ) (fd : Option ℕ) (body : List ℕ) (w : World)
      → Settles (handle unix methods p sender opcode fd body w)
  unfolding handle
  handle-Settles p sender opcode fd body w =
      elim (Option-cases (methods.dispatch (w.heap p).kind)) [
        | inl e ↦ rw (e, handle) (sticky-Settles _ _)
        | inr (m, e) ↦ rw (e, handle) (recover-Settles sender opcode fd _)
      ]

  deliver-Settles :
      (p sender opcode : ℕ) (fd : Option ℕ) (body : List ℕ) (w : World)
      → Settles (deliver unix methods p sender opcode fd body w)
  unfolding deliver
  deliver-Settles p sender opcode fd body w =
      let (fd', w') = route_fd unix methods (w.heap p).kind opcode fd w in
      elim (Bool-cases (is_zombie p w' && not (is_display (w'.heap p).kind))) [
        | inl zombie ↦ rw zombie (absorb-Settles p sender opcode fd' body w')
        | inr live ↦ rw live (handle-Settles p sender opcode fd' body w')
      ]

  dispatch_message-Settles :
      (m : Message) (w : World) → Settles (dispatch_message unix methods (m, w))
  unfolding dispatch_message
  dispatch_message-Settles (error e) w = elim (Bool-cases (is_read_timeout e)) [
    | inl idle ↦ rw idle (inr (e, refl, idle))
    | inr bad ↦ rw bad (sticky-Settles (unable_to_read e) w)
  ]
  dispatch_message-Settles (frame sender opcode fd body) w =
      elim (Option-cases (lookup_proxy sender w)) [
        | inl e ↦ rw (e, dispatch_message) (sticky-Settles _ _)
        | inr (p, e) ↦ rw (e, dispatch_message) (deliver-Settles p sender opcode fd body w)
      ]

  dispatch-Settles : (w : World) → Settles (dispatch unix methods w)
  unfolding dispatch
  dispatch-Settles w = elim (Option-cases w.fatal_err) [
    | inr (e, f) ↦ rw (f, dispatch) (inl f)
    | inl f ↦ rw (f, dispatch) (dispatch_message-Settles (read_msg unix w).0 (read_msg unix w).1)
  ]

  dispatch_dead :
      (w : World) (e : Error) → w.fatal_err ≡ some e → dispatch unix methods w ≡ (some e, w)
  unfolding dispatch
  dispatch_dead w e dead =
      ap
        (λ o. elim o [
          | some x ↦ (some x, w)
          | none ↦ dispatch_message unix methods (read_msg unix w)
        ])
        dead

  -- An error of `Dispatch` that is not an idle timeout is final: the next `Dispatch` and every
  -- `WriteMsg` return the same error and change nothing.
  pub dispatch-dispatch :
      (w w' : World) (e : Error)
      → dispatch unix methods w ≡ (some e, w')
      → is_read_timeout e ≡ false
      → (dispatch unix methods w' ≡ (some e, w'))
        × ((b oob : List ℕ) → write_msg b oob w' ≡ (some e, w'))
  dispatch-dispatch w w' e r busy = elim (dispatch-Settles w) [
    | inl settled ↦
        let dead : w'.fatal_err ≡ some e =
          sym (ap (λ x. x.1.fatal_err) r) ∙ (settled ∙ ap (λ x. x.0) r) in
        (dispatch_dead w' e dead, λ b oob. write_msg_dead b oob w' e dead)
    | inr (x, returned, idle) ↦
        let same : is_read_timeout e ≡ is_read_timeout x =
          ap timed (sym (ap (λ y. y.0) r) ∙ returned) in
        absurd (false_is_not_true (sym busy ∙ (same ∙ idle)))
  ]
