-- ===== src/Bindings/Table.antt =====
-- Which of the optional interfaces the generated types implement, as the type assertions of
-- `Dispatch` in client/context.go find them.
use sysc_wayland.Base.{ℕ, Bool, List, Option, none, some}
use sysc_wayland.World.{
  Kind, M, buffer, callback, data_device, data_offer, data_source, display, idle_notification,
  keyboard, other, pointer, registry, seat, session_lock, session_lock_surface, shell_surface, shm,
  surface, tablet, tablet_pad, tablet_pad_group, tablet_pad_ring, tablet_pad_strip, tablet_seat,
  tablet_tool, text_input, touch, wl_output,
}
use sysc_wayland.Dispatch.Interfaces.{Methods}
use sysc_wayland.Bindings.Events.{Event}
use sysc_wayland.Bindings.Objects.{has_no_fd}
use sysc_wayland.Bindings.Decoders.Display
use sysc_wayland.Bindings.Decoders.Registry
use sysc_wayland.Bindings.Decoders.Callback
use sysc_wayland.Bindings.Decoders.Shm
use sysc_wayland.Bindings.Decoders.Buffer
use sysc_wayland.Bindings.Decoders.DataOffer
use sysc_wayland.Bindings.Decoders.DataSource
use sysc_wayland.Bindings.Decoders.DataDevice
use sysc_wayland.Bindings.Decoders.ShellSurface
use sysc_wayland.Bindings.Decoders.Surface
use sysc_wayland.Bindings.Decoders.Seat
use sysc_wayland.Bindings.Decoders.Pointer
use sysc_wayland.Bindings.Decoders.Keyboard
use sysc_wayland.Bindings.Decoders.Touch
use sysc_wayland.Bindings.Decoders.Output
use sysc_wayland.Bindings.Decoders.IdleNotification
use sysc_wayland.Bindings.Decoders.TabletSeat
use sysc_wayland.Bindings.Decoders.TabletTool
use sysc_wayland.Bindings.Decoders.Tablet
use sysc_wayland.Bindings.Decoders.TabletPadRing
use sysc_wayland.Bindings.Decoders.TabletPadStrip
use sysc_wayland.Bindings.Decoders.TabletPadGroup
use sysc_wayland.Bindings.Decoders.TabletPad
use sysc_wayland.Bindings.Decoders.SessionLock
use sysc_wayland.Bindings.Decoders.SessionLockSurface
use sysc_wayland.Bindings.Decoders.TextInput

-- `foreign` are the methods of all other types.
module _ (on_event : ℕ → Event → M (Unit {0})) (foreign : Methods) where
  unfoldable pub has_fd : Kind → Option (ℕ → Bool)
  has_fd display = some has_no_fd
  has_fd registry = some has_no_fd
  has_fd callback = some has_no_fd
  has_fd shm = some has_no_fd
  has_fd buffer = some has_no_fd
  has_fd data_offer = some has_no_fd
  has_fd data_source = some DataSource.has_fd
  has_fd data_device = some has_no_fd
  has_fd shell_surface = some has_no_fd
  has_fd surface = some has_no_fd
  has_fd seat = some has_no_fd
  has_fd pointer = some has_no_fd
  has_fd keyboard = some Keyboard.has_fd
  has_fd touch = some has_no_fd
  has_fd wl_output = some has_no_fd
  has_fd idle_notification = some has_no_fd
  has_fd tablet_seat = some has_no_fd
  has_fd tablet_tool = some has_no_fd
  has_fd tablet = some has_no_fd
  has_fd tablet_pad_ring = some has_no_fd
  has_fd tablet_pad_strip = some has_no_fd
  has_fd tablet_pad_group = some has_no_fd
  has_fd tablet_pad = some has_no_fd
  has_fd session_lock = some has_no_fd
  has_fd session_lock_surface = some has_no_fd
  has_fd text_input = some has_no_fd
  has_fd (other n) = foreign.has_fd (other n)
  has_fd _ = none

  unfoldable pub absorb_new_ids : Kind → Option (ℕ → ℕ → List ℕ → M (Unit {0}))
  absorb_new_ids data_device = some DataDevice.absorb_new_ids
  absorb_new_ids tablet_seat = some TabletSeat.absorb_new_ids
  absorb_new_ids tablet_pad_group = some TabletPadGroup.absorb_new_ids
  absorb_new_ids tablet_pad = some TabletPad.absorb_new_ids
  absorb_new_ids (other n) = foreign.absorb_new_ids (other n)
  absorb_new_ids _ = none

  unfoldable pub dispatch : Kind → Option (ℕ → ℕ → Option ℕ → List ℕ → M (Unit {0}))
  dispatch display = some (Display.dispatch on_event)
  dispatch registry = some (Registry.dispatch on_event)
  dispatch callback = some (Callback.dispatch on_event)
  dispatch shm = some (Shm.dispatch on_event)
  dispatch buffer = some (Buffer.dispatch on_event)
  dispatch data_offer = some (DataOffer.dispatch on_event)
  dispatch data_source = some (DataSource.dispatch on_event)
  dispatch data_device = some (DataDevice.dispatch on_event)
  dispatch shell_surface = some (ShellSurface.dispatch on_event)
  dispatch surface = some (Surface.dispatch on_event)
  dispatch seat = some (Seat.dispatch on_event)
  dispatch pointer = some (Pointer.dispatch on_event)
  dispatch keyboard = some (Keyboard.dispatch on_event)
  dispatch touch = some (Touch.dispatch on_event)
  dispatch wl_output = some (Output.dispatch on_event)
  dispatch idle_notification = some (IdleNotification.dispatch on_event)
  dispatch tablet_seat = some (TabletSeat.dispatch on_event)
  dispatch tablet_tool = some (TabletTool.dispatch on_event)
  dispatch tablet = some (Tablet.dispatch on_event)
  dispatch tablet_pad_ring = some (TabletPadRing.dispatch on_event)
  dispatch tablet_pad_strip = some (TabletPadStrip.dispatch on_event)
  dispatch tablet_pad_group = some (TabletPadGroup.dispatch on_event)
  dispatch tablet_pad = some (TabletPad.dispatch on_event)
  dispatch session_lock = some (SessionLock.dispatch on_event)
  dispatch session_lock_surface = some (SessionLockSurface.dispatch on_event)
  dispatch text_input = some (TextInput.dispatch on_event)
  dispatch (other n) = foreign.dispatch (other n)
  dispatch _ = none

  abbrev pub generated : Methods
  generated = record { has_fd = has_fd; absorb_new_ids = absorb_new_ids; dispatch = dispatch }
