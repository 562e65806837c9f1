-- ===== src/Bindings/Events/TextInput.antt =====
-- The event structs of textinput/text_input.go. A pointer field is `none` for nil; an int32 and a fixed number are the
-- 32 bits on the wire.
use sysc_wayland.Base.{ℕ, List, Option}

pub data TextInputEvent : Type 0 where
  enter : Option ℕ → TextInputEvent
  leave : Option ℕ → TextInputEvent
  preedit_string : Option (List ℕ) → ℕ → ℕ → TextInputEvent
  commit_string : Option (List ℕ) → TextInputEvent
  delete_surrounding_text : ℕ → ℕ → TextInputEvent
  done : ℕ → TextInputEvent
