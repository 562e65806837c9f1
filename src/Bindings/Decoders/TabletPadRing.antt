-- ===== src/Bindings/Decoders/TabletPadRing.antt =====
-- The decoder of `ZwpTabletPadRingV2` in cursorshape/tablet_v2.go.
use sysc_wayland.Base.{List, Option, if◌then◌else◌, none, ℕ, ◌==◌}
use sysc_wayland.World.{M, throw, unsupported_opcode}
use sysc_wayland.Wire.{uint32_at}
use sysc_wayland.Bindings.Events.{Event, TabletPadRingEvent}
use sysc_wayland.Bindings.Objects.{call, if_handled, lift, ◌>>=◌}

module _ (on_event : ℕ → Event → M (Unit {0})) where
  unfoldable pub source_event : ℕ → List ℕ → M (Unit {0})
  source_event p body = if_handled p 0 (do
    source ← lift (uint32_at body 0)
    call on_event p (Event.tablet_pad_ring (TabletPadRingEvent.source source)) none)

  unfoldable pub angle_event : ℕ → List ℕ → M (Unit {0})
  angle_event p body = if_handled p 1 (do
    degrees ← lift (uint32_at body 0)
    call on_event p (Event.tablet_pad_ring (TabletPadRingEvent.angle degrees)) none)

  unfoldable pub frame_event : ℕ → List ℕ → M (Unit {0})
  frame_event p body = if_handled p 3 (do
    time ← lift (uint32_at body 0)
    call on_event p (Event.tablet_pad_ring (TabletPadRingEvent.frame time)) none)

  unfoldable pub dispatch : ℕ → ℕ → Option ℕ → List ℕ → M (Unit {0})
  dispatch p opcode fd body =
      if opcode == 0
      then source_event p body
      else if opcode == 1
      then angle_event p body
      else if opcode == 2
      then if_handled p 2 (call on_event p (Event.tablet_pad_ring TabletPadRingEvent.stop) none)
      else if opcode == 3
      then frame_event p body
      else throw unsupported_opcode
