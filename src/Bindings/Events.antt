-- ===== src/Bindings/Events.antt =====
-- The events of the generated types, which the application's handlers are given.
mod Client
mod Idle
mod Tablet
mod SessionLock
mod TextInput
pub use Client.*
pub use Idle.*
pub use Tablet.*
pub use SessionLock.*
pub use TextInput.*

pub data Event : Type 0 where
  display : DisplayEvent → Event
  registry : RegistryEvent → Event
  callback : CallbackEvent → Event
  shm : ShmEvent → Event
  buffer : BufferEvent → Event
  data_offer : DataOfferEvent → Event
  data_source : DataSourceEvent → Event
  data_device : DataDeviceEvent → Event
  shell_surface : ShellSurfaceEvent → Event
  surface : SurfaceEvent → Event
  seat : SeatEvent → Event
  pointer : PointerEvent → Event
  keyboard : KeyboardEvent → Event
  touch : TouchEvent → Event
  output : OutputEvent → Event
  idle_notification : IdleNotificationEvent → Event
  tablet_seat : TabletSeatEvent → Event
  tablet_tool : TabletToolEvent → Event
  tablet : TabletEvent → Event
  tablet_pad_ring : TabletPadRingEvent → Event
  tablet_pad_strip : TabletPadStripEvent → Event
  tablet_pad_group : TabletPadGroupEvent → Event
  tablet_pad : TabletPadEvent → Event
  session_lock : SessionLockEvent → Event
  session_lock_surface : SessionLockSurfaceEvent → Event
  text_input : TextInputEvent → Event
