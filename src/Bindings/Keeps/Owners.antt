-- ===== src/Bindings/Keeps/Owners.antt =====
-- The decoders of the two types with an event that carries a descriptor.
use sysc_wayland.Base.{ℕ, List, Option, Bool-cases, inl, inr}
use sysc_wayland.World.{World, M}
use sysc_wayland.Fatal.{close_received_fd}
use sysc_wayland.Bindings.Events.{Event}
use sysc_wayland.Bindings.Objects.{if_handled_fd, call, own}
use sysc_wayland.Bindings.Decoders.DataSource
use sysc_wayland.Bindings.Decoders.Keyboard
use sysc_wayland.Bindings.Keeps.{IsFrame, Keeps, Keeps-bind, Keeps-read, keeps_rules}
use sysc_wayland.Bindings.Keeps.Core.{
  data_source_target_event-Keeps, data_source_action_event-Keeps,
}
use sysc_wayland.Bindings.Keeps.Input.{
  keyboard_enter_event-Keeps, keyboard_leave_event-Keeps, keyboard_key_event-Keeps,
  keyboard_modifiers_event-Keeps, keyboard_repeat_info_event-Keeps,
}

-- A relation that closing a descriptor and handing one over respect too.
pub record IsOpen (R : World → World → Type 0) : Type 0 where
  pub frame : IsFrame R
  pub closes : (fd : Option ℕ) (w : World) → R w (close_received_fd fd w)
  pub owns : (fd : Option ℕ) (w : World) → R w (own fd w)

module _ {R : World → World → Type 0} (o : IsOpen R) where
  pub Keeps-closing :
      (p n : ℕ) (fd : Option ℕ) {m : M (Unit {0})} → Keeps R m → Keeps R (if_handled_fd p n fd m)
  unfolding if_handled_fd
  Keeps-closing p n fd h = record {
    keeps = λ w. elim (Bool-cases ((w.heap p).handler n)) [
      | inl set ↦ rw set (h.keeps w)
      | inr nil ↦ rw nil (o.closes fd w)
    ];
  }

  module _ (on_event : ℕ → Event → M (Unit {0}))
      (calm : (p : ℕ) (e : Event) → Keeps R (on_event p e)) where
    Keeps-taken : (p : ℕ) (e : Event) (fd : Option ℕ) → Keeps R (call on_event p e fd)
    unfolding call
    Keeps-taken p e fd = Keeps-bind (o.frame) (calm p e) (λ _. record { keeps = o.owns fd })

    send_event-Keeps :
        (p : ℕ) (fd : Option ℕ) (body : List ℕ) → Keeps R (DataSource.send_event on_event p fd body)
    unfolding DataSource.send_event
    send_event-Keeps p fd body = search (Keeps-closing, Keeps-taken, Keeps-read) depth 20

    keymap_event-Keeps :
        (p : ℕ) (fd : Option ℕ) (body : List ℕ) → Keeps R (Keyboard.keymap_event on_event p fd body)
    unfolding Keyboard.keymap_event
    keymap_event-Keeps p fd body = search (Keeps-closing, Keeps-taken, Keeps-read) depth 20

    pub data_source-Keeps_fd :
        (p opcode : ℕ) (fd : Option ℕ) (body : List ℕ)
        → Keeps R (DataSource.dispatch on_event p opcode fd body)
    unfolding DataSource.dispatch
    data_source-Keeps_fd p opcode fd body =
        let frame = o.frame in
        search
          (
            keeps_rules, data_source_target_event-Keeps, send_event-Keeps,
            data_source_action_event-Keeps,
          )
          depth 60

    pub keyboard-Keeps_fd :
        (p opcode : ℕ) (fd : Option ℕ) (body : List ℕ)
        → Keeps R (Keyboard.dispatch on_event p opcode fd body)
    unfolding Keyboard.dispatch
    keyboard-Keeps_fd p opcode fd body =
        let frame = o.frame in
        search
          (
            keeps_rules, keymap_event-Keeps, keyboard_enter_event-Keeps, keyboard_leave_event-Keeps,
            keyboard_key_event-Keeps, keyboard_modifiers_event-Keeps,
            keyboard_repeat_info_event-Keeps,
          )
          depth 60
