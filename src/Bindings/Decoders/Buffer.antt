-- ===== src/Bindings/Decoders/Buffer.antt =====
-- The decoder of `Buffer` in client/client.go.
use sysc_wayland.Base.{List, Option, if◌then◌else◌, none, ℕ, ◌==◌}
use sysc_wayland.World.{M, throw, unsupported_opcode}
use sysc_wayland.Bindings.Events.{Event, BufferEvent}
use sysc_wayland.Bindings.Objects.{call, if_handled}

module _ (on_event : ℕ → Event → M (Unit {0})) where
  unfoldable pub dispatch : ℕ → ℕ → Option ℕ → List ℕ → M (Unit {0})
  dispatch p opcode fd body =
      if opcode == 0
      then if_handled p 0 (call on_event p (Event.buffer BufferEvent.release) none)
      else throw unsupported_opcode
