-- ===== src/Bindings/Decoders.antt =====
-- The generated `Dispatch`, `HasFD` and `AbsorbNewIDs` methods, one file for each type.
pub mod Display
pub mod Registry
pub mod Callback
pub mod Shm
pub mod Buffer
pub mod DataOffer
pub mod DataSource
pub mod DataDevice
pub mod ShellSurface
pub mod Surface
pub mod Seat
pub mod Pointer
pub mod Keyboard
pub mod Touch
pub mod Output
pub mod IdleNotification
pub mod TabletSeat
pub mod TabletTool
pub mod Tablet
pub mod TabletPadRing
pub mod TabletPadStrip
pub mod TabletPadGroup
pub mod TabletPad
pub mod SessionLock
pub mod SessionLockSurface
pub mod TextInput
