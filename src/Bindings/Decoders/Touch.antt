-- ===== src/Bindings/Decoders/Touch.antt =====
-- The decoder of `Touch` in client/client.go.
use sysc_wayland.Base.{List, Option, if◌then◌else◌, none, ℕ, ◌==◌}
use sysc_wayland.World.{M, gets, surface, throw, unsupported_opcode}
use sysc_wayland.Wire.{uint32_at}
use sysc_wayland.Bindings.Events.{Event, TouchEvent}
use sysc_wayland.Bindings.Objects.{call, find_live, if_handled, lift, ◌>>=◌}

module _ (on_event : ℕ → Event → M (Unit {0})) where
  unfoldable pub down_event : ℕ → List ℕ → M (Unit {0})
  down_event p body = if_handled p 0 (do
    serial ← lift (uint32_at body 0)
    time ← lift (uint32_at body 4)
    surface_id ← lift (uint32_at body 8)
    surface_ref ← gets (find_live surface surface_id)
    id ← lift (uint32_at body 12)
    x ← lift (uint32_at body 16)
    y ← lift (uint32_at body 20)
    call on_event p (Event.touch (TouchEvent.down serial time surface_ref id x y)) none)

  unfoldable pub up_event : ℕ → List ℕ → M (Unit {0})
  up_event p body = if_handled p 1 (do
    serial ← lift (uint32_at body 0)
    time ← lift (uint32_at body 4)
    id ← lift (uint32_at body 8)
    call on_event p (Event.touch (TouchEvent.up serial time id)) none)

  unfoldable pub motion_event : ℕ → List ℕ → M (Unit {0})
  motion_event p body = if_handled p 2 (do
    time ← lift (uint32_at body 0)
    id ← lift (uint32_at body 4)
    x ← lift (uint32_at body 8)
    y ← lift (uint32_at body 12)
    call on_event p (Event.touch (TouchEvent.motion time id x y)) none)

  unfoldable pub shape_event : ℕ → List ℕ → M (Unit {0})
  shape_event p body = if_handled p 5 (do
    id ← lift (uint32_at body 0)
    major ← lift (uint32_at body 4)
    minor ← lift (uint32_at body 8)
    call on_event p (Event.touch (TouchEvent.shape id major minor)) none)

  unfoldable pub orientation_event : ℕ → List ℕ → M (Unit {0})
  orientation_event p body = if_handled p 6 (do
    id ← lift (uint32_at body 0)
    orientation ← lift (uint32_at body 4)
    call on_event p (Event.touch (TouchEvent.orientation id orientation)) none)

  unfoldable pub dispatch : ℕ → ℕ → Option ℕ → List ℕ → M (Unit {0})
  dispatch p opcode fd body =
      if opcode == 0
      then down_event p body
      else if opcode == 1
      then up_event p body
      else if opcode == 2
      then motion_event p body
      else if opcode == 3
      then if_handled p 3 (call on_event p (Event.touch TouchEvent.frame) none)
      else if opcode == 4
      then if_handled p 4 (call on_event p (Event.touch TouchEvent.cancel) none)
      else if opcode == 5
      then shape_event p body
      else if opcode == 6
      then orientation_event p body
      else throw unsupported_opcode
