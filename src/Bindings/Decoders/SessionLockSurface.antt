-- ===== src/Bindings/Decoders/SessionLockSurface.antt =====
-- The decoder of `ExtSessionLockSurfaceV1` in sessionlock/ext_session_lock_v1.go.
use sysc_wayland.Base.{List, Option, if◌then◌else◌, none, ℕ, ◌==◌}
use sysc_wayland.World.{M, throw, unsupported_opcode}
use sysc_wayland.Wire.{uint32_at}
use sysc_wayland.Bindings.Events.{Event, SessionLockSurfaceEvent}
use sysc_wayland.Bindings.Objects.{call, if_handled, lift, ◌>>=◌}

module _ (on_event : ℕ → Event → M (Unit {0})) where
  unfoldable pub configure_event : ℕ → List ℕ → M (Unit {0})
  configure_event p body = if_handled p 0 (do
    serial ← lift (uint32_at body 0)
    width ← lift (uint32_at body 4)
    height ← lift (uint32_at body 8)
    call on_event p
        (Event.session_lock_surface (SessionLockSurfaceEvent.configure serial width height)) none)

  unfoldable pub dispatch : ℕ → ℕ → Option ℕ → List ℕ → M (Unit {0})
  dispatch p opcode fd body =
      if opcode == 0 then configure_event p body else throw unsupported_opcode
