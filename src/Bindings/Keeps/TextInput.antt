-- ===== src/Bindings/Keeps/TextInput.antt =====
-- The decoders of textinput/text_input.go where they are given no descriptor.
use sysc_wayland.Base.{ℕ, List, Option}
use sysc_wayland.World.{World, M}
use sysc_wayland.Bindings.Events.{Event}
use sysc_wayland.Bindings.Decoders.TextInput
use sysc_wayland.Bindings.Keeps.{IsFrame, Keeps, keeps_rules}

module _ {R : World → World → Type 0} (frame : IsFrame R) (on_event : ℕ → Event → M (Unit {0}))
    (calm : (p : ℕ) (e : Event) → Keeps R (on_event p e)) where
  text_input_enter_event-Keeps :
      (p : ℕ) (body : List ℕ) → Keeps R (TextInput.enter_event on_event p body)
  unfolding TextInput.enter_event
  text_input_enter_event-Keeps p body = search (keeps_rules) depth 40

  text_input_leave_event-Keeps :
      (p : ℕ) (body : List ℕ) → Keeps R (TextInput.leave_event on_event p body)
  unfolding TextInput.leave_event
  text_input_leave_event-Keeps p body = search (keeps_rules) depth 40

  text_input_preedit_string_event-Keeps :
      (p : ℕ) (body : List ℕ) → Keeps R (TextInput.preedit_string_event on_event p body)
  unfolding TextInput.preedit_string_event
  text_input_preedit_string_event-Keeps p body = search (keeps_rules) depth 40

  text_input_commit_string_event-Keeps :
      (p : ℕ) (body : List ℕ) → Keeps R (TextInput.commit_string_event on_event p body)
  unfolding TextInput.commit_string_event
  text_input_commit_string_event-Keeps p body = search (keeps_rules) depth 40

  text_input_delete_surrounding_text_event-Keeps :
      (p : ℕ) (body : List ℕ) → Keeps R (TextInput.delete_surrounding_text_event on_event p body)
  unfolding TextInput.delete_surrounding_text_event
  text_input_delete_surrounding_text_event-Keeps p body = search (keeps_rules) depth 40

  text_input_done_event-Keeps :
      (p : ℕ) (body : List ℕ) → Keeps R (TextInput.done_event on_event p body)
  unfolding TextInput.done_event
  text_input_done_event-Keeps p body = search (keeps_rules) depth 40

  pub text_input-Keeps :
      (p opcode : ℕ) (fd : Option ℕ) (body : List ℕ)
      → Keeps R (TextInput.dispatch on_event p opcode fd body)
  unfolding TextInput.dispatch
  text_input-Keeps p opcode fd body =
      search
        (
          keeps_rules, text_input_enter_event-Keeps, text_input_leave_event-Keeps,
          text_input_preedit_string_event-Keeps, text_input_commit_string_event-Keeps,
          text_input_delete_surrounding_text_event-Keeps, text_input_done_event-Keeps,
        )
        depth 60
