-- ===== src/Bindings/Events/Client.antt =====
-- The event structs of client/client.go. A pointer field is `none` for nil; an int32 and a fixed number are the
-- 32 bits on the wire.
use sysc_wayland.Base.{ℕ, List, Option}

pub data DisplayEvent : Type 0 where
  error : Option ℕ → ℕ → List ℕ → DisplayEvent
  delete_id : ℕ → DisplayEvent

pub data RegistryEvent : Type 0 where
  global : ℕ → List ℕ → ℕ → RegistryEvent
  global_remove : ℕ → RegistryEvent

pub data CallbackEvent : Type 0 where
  done : ℕ → CallbackEvent

pub data ShmEvent : Type 0 where
  format : ℕ → ShmEvent

pub data BufferEvent : Type 0 where
  release : BufferEvent

pub data DataOfferEvent : Type 0 where
  offer : List ℕ → DataOfferEvent
  source_actions : ℕ → DataOfferEvent
  action : ℕ → DataOfferEvent

pub data DataSourceEvent : Type 0 where
  target : Option (List ℕ) → DataSourceEvent
  send : List ℕ → Option ℕ → DataSourceEvent
  cancelled : DataSourceEvent
  dnd_drop_performed : DataSourceEvent
  dnd_finished : DataSourceEvent
  action : ℕ → DataSourceEvent

pub data DataDeviceEvent : Type 0 where
  data_offer : Option ℕ → DataDeviceEvent
  enter : ℕ → Option ℕ → ℕ → ℕ → Option ℕ → DataDeviceEvent
  leave : DataDeviceEvent
  motion : ℕ → ℕ → ℕ → DataDeviceEvent
  drop : DataDeviceEvent
  selection : Option ℕ → DataDeviceEvent

pub data ShellSurfaceEvent : Type 0 where
  ping : ℕ → ShellSurfaceEvent
  configure : ℕ → ℕ → ℕ → ShellSurfaceEvent
  popup_done : ShellSurfaceEvent

pub data SurfaceEvent : Type 0 where
  enter : Option ℕ → SurfaceEvent
  leave : Option ℕ → SurfaceEvent
  preferred_buffer_scale : ℕ → SurfaceEvent
  preferred_buffer_transform : ℕ → SurfaceEvent

pub data SeatEvent : Type 0 where
  capabilities : ℕ → SeatEvent
  name : List ℕ → SeatEvent

pub data PointerEvent : Type 0 where
  enter : ℕ → Option ℕ → ℕ → ℕ → PointerEvent
  leave : ℕ → Option ℕ → PointerEvent
  motion : ℕ → ℕ → ℕ → PointerEvent
  button : ℕ → ℕ → ℕ → ℕ → PointerEvent
  axis : ℕ → ℕ → ℕ → PointerEvent
  frame : PointerEvent
  axis_source : ℕ → PointerEvent
  axis_stop : ℕ → ℕ → PointerEvent
  axis_discrete : ℕ → ℕ → PointerEvent
  axis_value120 : ℕ → ℕ → PointerEvent
  axis_relative_direction : ℕ → ℕ → PointerEvent

pub data KeyboardEvent : Type 0 where
  keymap : ℕ → Option ℕ → ℕ → KeyboardEvent
  enter : ℕ → Option ℕ → List ℕ → KeyboardEvent
  leave : ℕ → Option ℕ → KeyboardEvent
  key : ℕ → ℕ → ℕ → ℕ → KeyboardEvent
  modifiers : ℕ → ℕ → ℕ → ℕ → ℕ → KeyboardEvent
  repeat_info : ℕ → ℕ → KeyboardEvent

pub data TouchEvent : Type 0 where
  down : ℕ → ℕ → Option ℕ → ℕ → ℕ → ℕ → TouchEvent
  up : ℕ → ℕ → ℕ → TouchEvent
  motion : ℕ → ℕ → ℕ → ℕ → TouchEvent
  frame : TouchEvent
  cancel : TouchEvent
  shape : ℕ → ℕ → ℕ → TouchEvent
  orientation : ℕ → ℕ → TouchEvent

pub data OutputEvent : Type 0 where
  geometry : ℕ → ℕ → ℕ → ℕ → ℕ → List ℕ → List ℕ → ℕ → OutputEvent
  mode : ℕ → ℕ → ℕ → ℕ → OutputEvent
  done : OutputEvent
  scale : ℕ → OutputEvent
  name : List ℕ → OutputEvent
  description : List ℕ → OutputEvent
