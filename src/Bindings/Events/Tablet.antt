-- ===== src/Bindings/Events/Tablet.antt =====
-- The event structs of cursorshape/tablet_v2.go. A pointer field is `none` for nil; an int32 and a fixed number are the
-- 32 bits on the wire.
use sysc_wayland.Base.{ℕ, List, Option}

pub data TabletSeatEvent : Type 0 where
  tablet_added : Option ℕ → TabletSeatEvent
  tool_added : Option ℕ → TabletSeatEvent
  pad_added : Option ℕ → TabletSeatEvent

pub data TabletToolEvent : Type 0 where
  type : ℕ → TabletToolEvent
  hardware_serial : ℕ → ℕ → TabletToolEvent
  hardware_id_wacom : ℕ → ℕ → TabletToolEvent
  capability : ℕ → TabletToolEvent
  done : TabletToolEvent
  removed : TabletToolEvent
  proximity_in : ℕ → Option ℕ → Option ℕ → TabletToolEvent
  proximity_out : TabletToolEvent
  down : ℕ → TabletToolEvent
  up : TabletToolEvent
  motion : ℕ → ℕ → TabletToolEvent
  pressure : ℕ → TabletToolEvent
  distance : ℕ → TabletToolEvent
  tilt : ℕ → ℕ → TabletToolEvent
  rotation : ℕ → TabletToolEvent
  slider : ℕ → TabletToolEvent
  wheel : ℕ → ℕ → TabletToolEvent
  button : ℕ → ℕ → ℕ → TabletToolEvent
  frame : ℕ → TabletToolEvent

pub data TabletEvent : Type 0 where
  name : List ℕ → TabletEvent
  id : ℕ → ℕ → TabletEvent
  path : List ℕ → TabletEvent
  done : TabletEvent
  removed : TabletEvent

pub data TabletPadRingEvent : Type 0 where
  source : ℕ → TabletPadRingEvent
  angle : ℕ → TabletPadRingEvent
  stop : TabletPadRingEvent
  frame : ℕ → TabletPadRingEvent

pub data TabletPadStripEvent : Type 0 where
  source : ℕ → TabletPadStripEvent
  position : ℕ → TabletPadStripEvent
  stop : TabletPadStripEvent
  frame : ℕ → TabletPadStripEvent

pub data TabletPadGroupEvent : Type 0 where
  buttons : List ℕ → TabletPadGroupEvent
  ring : Option ℕ → TabletPadGroupEvent
  strip : Option ℕ → TabletPadGroupEvent
  modes : ℕ → TabletPadGroupEvent
  done : TabletPadGroupEvent
  mode_switch : ℕ → ℕ → ℕ → TabletPadGroupEvent

pub data TabletPadEvent : Type 0 where
  group : Option ℕ → TabletPadEvent
  path : List ℕ → TabletPadEvent
  buttons : ℕ → TabletPadEvent
  done : TabletPadEvent
  button : ℕ → ℕ → ℕ → TabletPadEvent
  enter : ℕ → Option ℕ → Option ℕ → TabletPadEvent
  leave : ℕ → Option ℕ → TabletPadEvent
  removed : TabletPadEvent
