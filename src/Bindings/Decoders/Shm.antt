-- ===== src/Bindings/Decoders/Shm.antt =====
-- The decoder of `Shm` in client/client.go.
use sysc_wayland.Base.{List, Option, if◌then◌else◌, none, ℕ, ◌==◌}
use sysc_wayland.World.{M, throw, unsupported_opcode}
use sysc_wayland.Wire.{uint32_at}
use sysc_wayland.Bindings.Events.{Event, ShmEvent}
use sysc_wayland.Bindings.Objects.{call, if_handled, lift, ◌>>=◌}

module _ (on_event : ℕ → Event → M (Unit {0})) where
  unfoldable pub format_event : ℕ → List ℕ → M (Unit {0})
  format_event p body = if_handled p 0 (do
    format ← lift (uint32_at body 0)
    call on_event p (Event.shm (ShmEvent.format format)) none)

  unfoldable pub dispatch : ℕ → ℕ → Option ℕ → List ℕ → M (Unit {0})
  dispatch p opcode fd body = if opcode == 0 then format_event p body else throw unsupported_opcode
