-- ===== src/Bindings/Decoders/ShellSurface.antt =====
-- The decoder of `ShellSurface` in client/client.go.
use sysc_wayland.Base.{List, Option, if◌then◌else◌, none, ℕ, ◌==◌}
use sysc_wayland.World.{M, throw, unsupported_opcode}
use sysc_wayland.Wire.{uint32_at}
use sysc_wayland.Bindings.Events.{Event, ShellSurfaceEvent}
use sysc_wayland.Bindings.Objects.{call, if_handled, lift, ◌>>=◌}

module _ (on_event : ℕ → Event → M (Unit {0})) where
  unfoldable pub ping_event : ℕ → List ℕ → M (Unit {0})
  ping_event p body = if_handled p 0 (do
    serial ← lift (uint32_at body 0)
    call on_event p (Event.shell_surface (ShellSurfaceEvent.ping serial)) none)

  unfoldable pub configure_event : ℕ → List ℕ → M (Unit {0})
  configure_event p body = if_handled p 1 (do
    edges ← lift (uint32_at body 0)
    width ← lift (uint32_at body 4)
    height ← lift (uint32_at body 8)
    call on_event p (Event.shell_surface (ShellSurfaceEvent.configure edges width height)) none)

  unfoldable pub dispatch : ℕ → ℕ → Option ℕ → List ℕ → M (Unit {0})
  dispatch p opcode fd body =
      if opcode == 0
      then ping_event p body
      else if opcode == 1
      then configure_event p body
      else if opcode == 2
      then if_handled p 2 (call on_event p (Event.shell_surface ShellSurfaceEvent.popup_done) none)
      else throw unsupported_opcode
