-- ===== src/Bindings/Decoders/Surface.antt =====
-- The decoder of `Surface` in client/client.go.
use sysc_wayland.Base.{List, Option, if◌then◌else◌, none, ℕ, ◌==◌}
use sysc_wayland.World.{M, gets, throw, unsupported_opcode, wl_output}
use sysc_wayland.Wire.{uint32_at}
use sysc_wayland.Bindings.Events.{Event, SurfaceEvent}
use sysc_wayland.Bindings.Objects.{call, find_live, if_handled, lift, ◌>>=◌}

module _ (on_event : ℕ → Event → M (Unit {0})) where
  unfoldable pub enter_event : ℕ → List ℕ → M (Unit {0})
  enter_event p body = if_handled p 0 (do
    output_id ← lift (uint32_at body 0)
    output_ref ← gets (find_live wl_output output_id)
    call on_event p (Event.surface (SurfaceEvent.enter output_ref)) none)

  unfoldable pub leave_event : ℕ → List ℕ → M (Unit {0})
  leave_event p body = if_handled p 1 (do
    output_id ← lift (uint32_at body 0)
    output_ref ← gets (find_live wl_output output_id)
    call on_event p (Event.surface (SurfaceEvent.leave output_ref)) none)

  unfoldable pub preferred_buffer_scale_event : ℕ → List ℕ → M (Unit {0})
  preferred_buffer_scale_event p body = if_handled p 2 (do
    factor ← lift (uint32_at body 0)
    call on_event p (Event.surface (SurfaceEvent.preferred_buffer_scale factor)) none)

  unfoldable pub preferred_buffer_transform_event : ℕ → List ℕ → M (Unit {0})
  preferred_buffer_transform_event p body = if_handled p 3 (do
    transform ← lift (uint32_at body 0)
    call on_event p (Event.surface (SurfaceEvent.preferred_buffer_transform transform)) none)

  unfoldable pub dispatch : ℕ → ℕ → Option ℕ → List ℕ → M (Unit {0})
  dispatch p opcode fd body =
      if opcode == 0
      then enter_event p body
      else if opcode == 1
      then leave_event p body
      else if opcode == 2
      then preferred_buffer_scale_event p body
      else if opcode == 3
      then preferred_buffer_transform_event p body
      else throw unsupported_opcode
