-- ===== src/Bindings/Decoders/Pointer.antt =====
-- The decoder of `Pointer` in client/client.go.
use sysc_wayland.Base.{List, Option, if◌then◌else◌, none, ℕ, ◌==◌}
use sysc_wayland.World.{M, gets, surface, throw, unsupported_opcode}
use sysc_wayland.Wire.{uint32_at}
use sysc_wayland.Bindings.Events.{Event, PointerEvent}
use sysc_wayland.Bindings.Objects.{call, find_live, if_handled, lift, ◌>>=◌}

module _ (on_event : ℕ → Event → M (Unit {0})) where
  unfoldable pub enter_event : ℕ → List ℕ → M (Unit {0})
  enter_event p body = if_handled p 0 (do
    serial ← lift (uint32_at body 0)
    surface_id ← lift (uint32_at body 4)
    surface_ref ← gets (find_live surface surface_id)
    surface_x ← lift (uint32_at body 8)
    surface_y ← lift (uint32_at body 12)
    call on_event p (Event.pointer (PointerEvent.enter serial surface_ref surface_x surface_y))
        none)

  unfoldable pub leave_event : ℕ → List ℕ → M (Unit {0})
  leave_event p body = if_handled p 1 (do
    serial ← lift (uint32_at body 0)
    surface_id ← lift (uint32_at body 4)
    surface_ref ← gets (find_live surface surface_id)
    call on_event p (Event.pointer (PointerEvent.leave serial surface_ref)) none)

  unfoldable pub motion_event : ℕ → List ℕ → M (Unit {0})
  motion_event p body = if_handled p 2 (do
    time ← lift (uint32_at body 0)
    surface_x ← lift (uint32_at body 4)
    surface_y ← lift (uint32_at body 8)
    call on_event p (Event.pointer (PointerEvent.motion time surface_x surface_y)) none)

  unfoldable pub button_event : ℕ → List ℕ → M (Unit {0})
  button_event p body = if_handled p 3 (do
    serial ← lift (uint32_at body 0)
    time ← lift (uint32_at body 4)
    button ← lift (uint32_at body 8)
    state ← lift (uint32_at body 12)
    call on_event p (Event.pointer (PointerEvent.button serial time button state)) none)

  unfoldable pub axis_event : ℕ → List ℕ → M (Unit {0})
  axis_event p body = if_handled p 4 (do
    time ← lift (uint32_at body 0)
    axis ← lift (uint32_at body 4)
    value ← lift (uint32_at body 8)
    call on_event p (Event.pointer (PointerEvent.axis time axis value)) none)

  unfoldable pub axis_source_event : ℕ → List ℕ → M (Unit {0})
  axis_source_event p body = if_handled p 6 (do
    axis_source ← lift (uint32_at body 0)
    call on_event p (Event.pointer (PointerEvent.axis_source axis_source)) none)

  unfoldable pub axis_stop_event : ℕ → List ℕ → M (Unit {0})
  axis_stop_event p body = if_handled p 7 (do
    time ← lift (uint32_at body 0)
    axis ← lift (uint32_at body 4)
    call on_event p (Event.pointer (PointerEvent.axis_stop time axis)) none)

  unfoldable pub axis_discrete_event : ℕ → List ℕ → M (Unit {0})
  axis_discrete_event p body = if_handled p 8 (do
    axis ← lift (uint32_at body 0)
    discrete ← lift (uint32_at body 4)
    call on_event p (Event.pointer (PointerEvent.axis_discrete axis discrete)) none)

  unfoldable pub axis_value120_event : ℕ → List ℕ → M (Unit {0})
  axis_value120_event p body = if_handled p 9 (do
    axis ← lift (uint32_at body 0)
    value120 ← lift (uint32_at body 4)
    call on_event p (Event.pointer (PointerEvent.axis_value120 axis value120)) none)

  unfoldable pub axis_relative_direction_event : ℕ → List ℕ → M (Unit {0})
  axis_relative_direction_event p body = if_handled p 10 (do
    axis ← lift (uint32_at body 0)
    direction ← lift (uint32_at body 4)
    call on_event p (Event.pointer (PointerEvent.axis_relative_direction axis direction)) none)

  unfoldable pub dispatch : ℕ → ℕ → Option ℕ → List ℕ → M (Unit {0})
  dispatch p opcode fd body =
      if opcode == 0
      then enter_event p body
      else if opcode == 1
      then leave_event p body
      else if opcode == 2
      then motion_event p body
      else if opcode == 3
      then button_event p body
      else if opcode == 4
      then axis_event p body
      else if opcode == 5
      then if_handled p 5 (call on_event p (Event.pointer PointerEvent.frame) none)
      else if opcode == 6
      then axis_source_event p body
      else if opcode == 7
      then axis_stop_event p body
      else if opcode == 8
      then axis_discrete_event p body
      else if opcode == 9
      then axis_value120_event p body
      else if opcode == 10
      then axis_relative_direction_event p body
      else throw unsupported_opcode
