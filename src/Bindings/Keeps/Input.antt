-- ===== src/Bindings/Keeps/Input.antt =====
-- The decoders of the input devices in client/client.go, without descriptors.
use sysc_wayland.Base.{ℕ, List, Option, none}
use sysc_wayland.World.{World, M}
use sysc_wayland.Bindings.Events.{Event}
use sysc_wayland.Bindings.Decoders.Seat
use sysc_wayland.Bindings.Decoders.Pointer
use sysc_wayland.Bindings.Decoders.Keyboard
use sysc_wayland.Bindings.Decoders.Touch
use sysc_wayland.Bindings.Keeps.{IsFrame, Keeps, keeps_rules}

module _ {R : World → World → Type 0} (frame : IsFrame R) (on_event : ℕ → Event → M (Unit {0}))
    (calm : (p : ℕ) (e : Event) → Keeps R (on_event p e)) where
  seat_capabilities_event-Keeps :
      (p : ℕ) (body : List ℕ) → Keeps R (Seat.capabilities_event on_event p body)
  unfolding Seat.capabilities_event
  seat_capabilities_event-Keeps p body = search (keeps_rules) depth 40

  seat_name_event-Keeps : (p : ℕ) (body : List ℕ) → Keeps R (Seat.name_event on_event p body)
  unfolding Seat.name_event
  seat_name_event-Keeps p body = search (keeps_rules) depth 40

  pub seat-Keeps :
      (p opcode : ℕ) (fd : Option ℕ) (body : List ℕ)
      → Keeps R (Seat.dispatch on_event p opcode fd body)
  unfolding Seat.dispatch
  seat-Keeps p opcode fd body =
      search (keeps_rules, seat_capabilities_event-Keeps, seat_name_event-Keeps) depth 60

  pointer_enter_event-Keeps :
      (p : ℕ) (body : List ℕ) → Keeps R (Pointer.enter_event on_event p body)
  unfolding Pointer.enter_event
  pointer_enter_event-Keeps p body = search (keeps_rules) depth 40

  pointer_leave_event-Keeps :
      (p : ℕ) (body : List ℕ) → Keeps R (Pointer.leave_event on_event p body)
  unfolding Pointer.leave_event
  pointer_leave_event-Keeps p body = search (keeps_rules) depth 40

  pointer_motion_event-Keeps :
      (p : ℕ) (body : List ℕ) → Keeps R (Pointer.motion_event on_event p body)
  unfolding Pointer.motion_event
  pointer_motion_event-Keeps p body = search (keeps_rules) depth 40

  pointer_button_event-Keeps :
      (p : ℕ) (body : List ℕ) → Keeps R (Pointer.button_event on_event p body)
  unfolding Pointer.button_event
  pointer_button_event-Keeps p body = search (keeps_rules) depth 40

  pointer_axis_event-Keeps : (p : ℕ) (body : List ℕ) → Keeps R (Pointer.axis_event on_event p body)
  unfolding Pointer.axis_event
  pointer_axis_event-Keeps p body = search (keeps_rules) depth 40

  pointer_axis_source_event-Keeps :
      (p : ℕ) (body : List ℕ) → Keeps R (Pointer.axis_source_event on_event p body)
  unfolding Pointer.axis_source_event
  pointer_axis_source_event-Keeps p body = search (keeps_rules) depth 40

  pointer_axis_stop_event-Keeps :
      (p : ℕ) (body : List ℕ) → Keeps R (Pointer.axis_stop_event on_event p body)
  unfolding Pointer.axis_stop_event
  pointer_axis_stop_event-Keeps p body = search (keeps_rules) depth 40

  pointer_axis_discrete_event-Keeps :
      (p : ℕ) (body : List ℕ) → Keeps R (Pointer.axis_discrete_event on_event p body)
  unfolding Pointer.axis_discrete_event
  pointer_axis_discrete_event-Keeps p body = search (keeps_rules) depth 40

  pointer_axis_value120_event-Keeps :
      (p : ℕ) (body : List ℕ) → Keeps R (Pointer.axis_value120_event on_event p body)
  unfolding Pointer.axis_value120_event
  pointer_axis_value120_event-Keeps p body = search (keeps_rules) depth 40

  pointer_axis_relative_direction_event-Keeps :
      (p : ℕ) (body : List ℕ) → Keeps R (Pointer.axis_relative_direction_event on_event p body)
  unfolding Pointer.axis_relative_direction_event
  pointer_axis_relative_direction_event-Keeps p body = search (keeps_rules) depth 40

  pub pointer-Keeps :
      (p opcode : ℕ) (fd : Option ℕ) (body : List ℕ)
      → Keeps R (Pointer.dispatch on_event p opcode fd body)
  unfolding Pointer.dispatch
  pointer-Keeps p opcode fd body =
      search
        (
          keeps_rules, pointer_enter_event-Keeps, pointer_leave_event-Keeps,
          pointer_motion_event-Keeps, pointer_button_event-Keeps, pointer_axis_event-Keeps,
          pointer_axis_source_event-Keeps, pointer_axis_stop_event-Keeps,
          pointer_axis_discrete_event-Keeps, pointer_axis_value120_event-Keeps,
          pointer_axis_relative_direction_event-Keeps,
        )
        depth 60

  keyboard_keymap_event-Keeps :
      (p : ℕ) (body : List ℕ) → Keeps R (Keyboard.keymap_event on_event p none body)
  unfolding Keyboard.keymap_event
  keyboard_keymap_event-Keeps p body = search (keeps_rules) depth 40

  pub keyboard_enter_event-Keeps :
      (p : ℕ) (body : List ℕ) → Keeps R (Keyboard.enter_event on_event p body)
  unfolding Keyboard.enter_event
  keyboard_enter_event-Keeps p body = search (keeps_rules) depth 40

  pub keyboard_leave_event-Keeps :
      (p : ℕ) (body : List ℕ) → Keeps R (Keyboard.leave_event on_event p body)
  unfolding Keyboard.leave_event
  keyboard_leave_event-Keeps p body = search (keeps_rules) depth 40

  pub keyboard_key_event-Keeps :
      (p : ℕ) (body : List ℕ) → Keeps R (Keyboard.key_event on_event p body)
  unfolding Keyboard.key_event
  keyboard_key_event-Keeps p body = search (keeps_rules) depth 40

  pub keyboard_modifiers_event-Keeps :
      (p : ℕ) (body : List ℕ) → Keeps R (Keyboard.modifiers_event on_event p body)
  unfolding Keyboard.modifiers_event
  keyboard_modifiers_event-Keeps p body = search (keeps_rules) depth 40

  pub keyboard_repeat_info_event-Keeps :
      (p : ℕ) (body : List ℕ) → Keeps R (Keyboard.repeat_info_event on_event p body)
  unfolding Keyboard.repeat_info_event
  keyboard_repeat_info_event-Keeps p body = search (keeps_rules) depth 40

  pub keyboard-Keeps :
      (p opcode : ℕ) (body : List ℕ) → Keeps R (Keyboard.dispatch on_event p opcode none body)
  unfolding Keyboard.dispatch
  keyboard-Keeps p opcode body =
      search
        (
          keeps_rules, keyboard_keymap_event-Keeps, keyboard_enter_event-Keeps,
          keyboard_leave_event-Keeps, keyboard_key_event-Keeps, keyboard_modifiers_event-Keeps,
          keyboard_repeat_info_event-Keeps,
        )
        depth 60

  touch_down_event-Keeps : (p : ℕ) (body : List ℕ) → Keeps R (Touch.down_event on_event p body)
  unfolding Touch.down_event
  touch_down_event-Keeps p body = search (keeps_rules) depth 40

  touch_up_event-Keeps : (p : ℕ) (body : List ℕ) → Keeps R (Touch.up_event on_event p body)
  unfolding Touch.up_event
  touch_up_event-Keeps p body = search (keeps_rules) depth 40

  touch_motion_event-Keeps : (p : ℕ) (body : List ℕ) → Keeps R (Touch.motion_event on_event p body)
  unfolding Touch.motion_event
  touch_motion_event-Keeps p body = search (keeps_rules) depth 40

  touch_shape_event-Keeps : (p : ℕ) (body : List ℕ) → Keeps R (Touch.shape_event on_event p body)
  unfolding Touch.shape_event
  touch_shape_event-Keeps p body = search (keeps_rules) depth 40

  touch_orientation_event-Keeps :
      (p : ℕ) (body : List ℕ) → Keeps R (Touch.orientation_event on_event p body)
  unfolding Touch.orientation_event
  touch_orientation_event-Keeps p body = search (keeps_rules) depth 40

  pub touch-Keeps :
      (p opcode : ℕ) (fd : Option ℕ) (body : List ℕ)
      → Keeps R (Touch.dispatch on_event p opcode fd body)
  unfolding Touch.dispatch
  touch-Keeps p opcode fd body =
      search
        (
          keeps_rules, touch_down_event-Keeps, touch_up_event-Keeps, touch_motion_event-Keeps,
          touch_shape_event-Keeps, touch_orientation_event-Keeps,
        )
        depth 60
