-- ===== src/Bindings/Decoders/TextInput.antt =====
-- The decoder of `ZwpTextInputV3` in textinput/text_input.go.
use sysc_wayland.Base.{List, Option, if◌then◌else◌, none, ℕ, ◌+◌, ◌==◌}
use sysc_wayland.World.{M, gets, surface, throw, unsupported_opcode}
use sysc_wayland.Wire.{nullable_string_at, uint32_at}
use sysc_wayland.Bindings.Events.{Event, TextInputEvent}
use sysc_wayland.Bindings.Objects.{call, find_live, if_handled, lift, ◌>>=◌}

module _ (on_event : ℕ → Event → M (Unit {0})) where
  unfoldable pub enter_event : ℕ → List ℕ → M (Unit {0})
  enter_event p body = if_handled p 0 (do
    surface_id ← lift (uint32_at body 0)
    surface_ref ← gets (find_live surface surface_id)
    call on_event p (Event.text_input (TextInputEvent.enter surface_ref)) none)

  unfoldable pub leave_event : ℕ → List ℕ → M (Unit {0})
  leave_event p body = if_handled p 1 (do
    surface_id ← lift (uint32_at body 0)
    surface_ref ← gets (find_live surface surface_id)
    call on_event p (Event.text_input (TextInputEvent.leave surface_ref)) none)

  unfoldable pub preedit_string_event : ℕ → List ℕ → M (Unit {0})
  preedit_string_event p body = if_handled p 2 (do
    (text, l) ← lift (nullable_string_at body 0)
    cursor_begin ← lift (uint32_at body l)
    cursor_end ← lift (uint32_at body (l + 4))
    call on_event p (Event.text_input (TextInputEvent.preedit_string text cursor_begin cursor_end))
        none)

  unfoldable pub commit_string_event : ℕ → List ℕ → M (Unit {0})
  commit_string_event p body = if_handled p 3 (do
    (text, l) ← lift (nullable_string_at body 0)
    call on_event p (Event.text_input (TextInputEvent.commit_string text)) none)

  unfoldable pub delete_surrounding_text_event : ℕ → List ℕ → M (Unit {0})
  delete_surrounding_text_event p body = if_handled p 4 (do
    before_length ← lift (uint32_at body 0)
    after_length ← lift (uint32_at body 4)
    call on_event p
        (Event.text_input (TextInputEvent.delete_surrounding_text before_length after_length)) none)

  unfoldable pub done_event : ℕ → List ℕ → M (Unit {0})
  done_event p body = if_handled p 5 (do
    serial ← lift (uint32_at body 0)
    call on_event p (Event.text_input (TextInputEvent.done serial)) none)

  unfoldable pub dispatch : ℕ → ℕ → Option ℕ → List ℕ → M (Unit {0})
  dispatch p opcode fd body =
      if opcode == 0
      then enter_event p body
      else if opcode == 1
      then leave_event p body
      else if opcode == 2
      then preedit_string_event p body
      else if opcode == 3
      then commit_string_event p body
      else if opcode == 4
      then delete_surrounding_text_event p body
      else if opcode == 5
      then done_event p body
      else throw unsupported_opcode
