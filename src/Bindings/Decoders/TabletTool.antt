-- ===== src/Bindings/Decoders/TabletTool.antt =====
-- The decoder of `ZwpTabletToolV2` in cursorshape/tablet_v2.go.
use sysc_wayland.Base.{List, Option, if◌then◌else◌, none, ℕ, ◌==◌}
use sysc_wayland.World.{M, gets, surface, tablet, throw, unsupported_opcode}
use sysc_wayland.Wire.{uint32_at}
use sysc_wayland.Bindings.Events.{Event, TabletToolEvent}
use sysc_wayland.Bindings.Objects.{call, find_live, if_handled, lift, ◌>>=◌}

module _ (on_event : ℕ → Event → M (Unit {0})) where
  unfoldable pub type_event : ℕ → List ℕ → M (Unit {0})
  type_event p body = if_handled p 0 (do
    tool_type ← lift (uint32_at body 0)
    call on_event p (Event.tablet_tool (TabletToolEvent.type tool_type)) none)

  unfoldable pub hardware_serial_event : ℕ → List ℕ → M (Unit {0})
  hardware_serial_event p body = if_handled p 1 (do
    hardware_serial_hi ← lift (uint32_at body 0)
    hardware_serial_lo ← lift (uint32_at body 4)
    call on_event p
        (Event.tablet_tool (TabletToolEvent.hardware_serial hardware_serial_hi hardware_serial_lo))
        none)

  unfoldable pub hardware_id_wacom_event : ℕ → List ℕ → M (Unit {0})
  hardware_id_wacom_event p body = if_handled p 2 (do
    hardware_id_hi ← lift (uint32_at body 0)
    hardware_id_lo ← lift (uint32_at body 4)
    call on_event p
        (Event.tablet_tool (TabletToolEvent.hardware_id_wacom hardware_id_hi hardware_id_lo)) none)

  unfoldable pub capability_event : ℕ → List ℕ → M (Unit {0})
  capability_event p body = if_handled p 3 (do
    capability ← lift (uint32_at body 0)
    call on_event p (Event.tablet_tool (TabletToolEvent.capability capability)) none)

  unfoldable pub proximity_in_event : ℕ → List ℕ → M (Unit {0})
  proximity_in_event p body = if_handled p 6 (do
    serial ← lift (uint32_at body 0)
    tablet_id ← lift (uint32_at body 4)
    tablet_ref ← gets (find_live tablet tablet_id)
    surface_id ← lift (uint32_at body 8)
    surface_ref ← gets (find_live surface surface_id)
    call on_event p (Event.tablet_tool (TabletToolEvent.proximity_in serial tablet_ref surface_ref))
        none)

  unfoldable pub down_event : ℕ → List ℕ → M (Unit {0})
  down_event p body = if_handled p 8 (do
    serial ← lift (uint32_at body 0)
    call on_event p (Event.tablet_tool (TabletToolEvent.down serial)) none)

  unfoldable pub motion_event : ℕ → List ℕ → M (Unit {0})
  motion_event p body = if_handled p 10 (do
    x ← lift (uint32_at body 0)
    y ← lift (uint32_at body 4)
    call on_event p (Event.tablet_tool (TabletToolEvent.motion x y)) none)

  unfoldable pub pressure_event : ℕ → List ℕ → M (Unit {0})
  pressure_event p body = if_handled p 11 (do
    pressure ← lift (uint32_at body 0)
    call on_event p (Event.tablet_tool (TabletToolEvent.pressure pressure)) none)

  unfoldable pub distance_event : ℕ → List ℕ → M (Unit {0})
  distance_event p body = if_handled p 12 (do
    distance ← lift (uint32_at body 0)
    call on_event p (Event.tablet_tool (TabletToolEvent.distance distance)) none)

  unfoldable pub tilt_event : ℕ → List ℕ → M (Unit {0})
  tilt_event p body = if_handled p 13 (do
    tilt_x ← lift (uint32_at body 0)
    tilt_y ← lift (uint32_at body 4)
    call on_event p (Event.tablet_tool (TabletToolEvent.tilt tilt_x tilt_y)) none)

  unfoldable pub rotation_event : ℕ → List ℕ → M (Unit {0})
  rotation_event p body = if_handled p 14 (do
    degrees ← lift (uint32_at body 0)
    call on_event p (Event.tablet_tool (TabletToolEvent.rotation degrees)) none)

  unfoldable pub slider_event : ℕ → List ℕ → M (Unit {0})
  slider_event p body = if_handled p 15 (do
    position ← lift (uint32_at body 0)
    call on_event p (Event.tablet_tool (TabletToolEvent.slider position)) none)

  unfoldable pub wheel_event : ℕ → List ℕ → M (Unit {0})
  wheel_event p body = if_handled p 16 (do
    degrees ← lift (uint32_at body 0)
    clicks ← lift (uint32_at body 4)
    call on_event p (Event.tablet_tool (TabletToolEvent.wheel degrees clicks)) none)

  unfoldable pub button_event : ℕ → List ℕ → M (Unit {0})
  button_event p body = if_handled p 17 (do
    serial ← lift (uint32_at body 0)
    button ← lift (uint32_at body 4)
    state ← lift (uint32_at body 8)
    call on_event p (Event.tablet_tool (TabletToolEvent.button serial button state)) none)

  unfoldable pub frame_event : ℕ → List ℕ → M (Unit {0})
  frame_event p body = if_handled p 18 (do
    time ← lift (uint32_at body 0)
    call on_event p (Event.tablet_tool (TabletToolEvent.frame time)) none)

  unfoldable pub dispatch : ℕ → ℕ → Option ℕ → List ℕ → M (Unit {0})
  dispatch p opcode fd body =
      if opcode == 0
      then type_event p body
      else if opcode == 1
      then hardware_serial_event p body
      else if opcode == 2
      then hardware_id_wacom_event p body
      else if opcode == 3
      then capability_event p body
      else if opcode == 4
      then if_handled p 4 (call on_event p (Event.tablet_tool TabletToolEvent.done) none)
      else if opcode == 5
      then if_handled p 5 (call on_event p (Event.tablet_tool TabletToolEvent.removed) none)
      else if opcode == 6
      then proximity_in_event p body
      else if opcode == 7
      then if_handled p 7 (call on_event p (Event.tablet_tool TabletToolEvent.proximity_out) none)
      else if opcode == 8
      then down_event p body
      else if opcode == 9
      then if_handled p 9 (call on_event p (Event.tablet_tool TabletToolEvent.up) none)
      else if opcode == 10
      then motion_event p body
      else if opcode == 11
      then pressure_event p body
      else if opcode == 12
      then distance_event p body
      else if opcode == 13
      then tilt_event p body
      else if opcode == 14
      then rotation_event p body
      else if opcode == 15
      then slider_event p body
      else if opcode == 16
      then wheel_event p body
      else if opcode == 17
      then button_event p body
      else if opcode == 18
      then frame_event p body
      else throw unsupported_opcode
