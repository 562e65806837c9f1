-- ===== src/Bindings/Decoders/Display.antt =====
-- The decoder of `Display` in client/client.go.
use sysc_wayland.Base.{ℕ, List, Option, none, ◌==◌, if◌then◌else◌}
use sysc_wayland.World.{M, gets, modify, throw, unsupported_opcode}
use sysc_wayland.Wire.{uint32_at, string_at}
use sysc_wayland.Ids.{lookup_proxy, delete_id}
use sysc_wayland.Fatal.{record_display_error}
use sysc_wayland.Bindings.Events.{Event, DisplayEvent}
use sysc_wayland.Bindings.Objects.{lift, if_handled, call, ◌>>=◌, ◌>>◌}

module _ (on_event : ℕ → Event → M (Unit {0})) where
  -- The context records the error before the handler sees it.
  unfoldable pub error_event : ℕ → List ℕ → M (Unit {0})
  error_event p body = do
    id ← lift (uint32_at body 0)
    object_ref ← gets (lookup_proxy id)
    code ← lift (uint32_at body 4)
    (message, l) ← lift (string_at body 8)
    modify (record_display_error object_ref code message)
    if_handled p 0
        (call on_event p (Event.display (DisplayEvent.error object_ref code message)) none)

  unfoldable pub delete_id_event : ℕ → List ℕ → M (Unit {0})
  delete_id_event p body = do
    id ← lift (uint32_at body 0)
    modify (delete_id id)
    if_handled p 1 (call on_event p (Event.display (DisplayEvent.delete_id id)) none)

  unfoldable pub dispatch : ℕ → ℕ → Option ℕ → List ℕ → M (Unit {0})
  dispatch p opcode fd body =
      if opcode == 0
      then error_event p body
      else if opcode == 1
      then delete_id_event p body
      else throw unsupported_opcode
