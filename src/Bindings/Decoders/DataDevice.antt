-- ===== src/Bindings/Decoders/DataDevice.antt =====
-- The decoder of `DataDevice` in client/client.go.
use sysc_wayland.Base.{List, Option, if◌then◌else◌, none, ℕ, ◌==◌}
use sysc_wayland.World.{M, data_offer, gets, pure, surface, throw, unsupported_opcode}
use sysc_wayland.Wire.{uint32_at}
use sysc_wayland.Bindings.Events.{Event, DataDeviceEvent}
use sysc_wayland.Bindings.Objects.{
  absorb_new_id, call, find_live, if_handled, introduce, lift, ◌>>=◌,
}

module _ (on_event : ℕ → Event → M (Unit {0})) where
  unfoldable pub data_offer_event : ℕ → List ℕ → M (Unit {0})
  data_offer_event p body = do
    id_id ← lift (uint32_at body 0)
    id_ref ← introduce data_offer id_id
    if_handled p 0 (call on_event p (Event.data_device (DataDeviceEvent.data_offer id_ref)) none)

  unfoldable pub enter_event : ℕ → List ℕ → M (Unit {0})
  enter_event p body = if_handled p 1 (do
    serial ← lift (uint32_at body 0)
    surface_id ← lift (uint32_at body 4)
    surface_ref ← gets (find_live surface surface_id)
    x ← lift (uint32_at body 8)
    y ← lift (uint32_at body 12)
    id_id ← lift (uint32_at body 16)
    id_ref ← gets (find_live data_offer id_id)
    call on_event p (Event.data_device (DataDeviceEvent.enter serial surface_ref x y id_ref)) none)

  unfoldable pub motion_event : ℕ → List ℕ → M (Unit {0})
  motion_event p body = if_handled p 3 (do
    time ← lift (uint32_at body 0)
    x ← lift (uint32_at body 4)
    y ← lift (uint32_at body 8)
    call on_event p (Event.data_device (DataDeviceEvent.motion time x y)) none)

  unfoldable pub selection_event : ℕ → List ℕ → M (Unit {0})
  selection_event p body = if_handled p 5 (do
    id_id ← lift (uint32_at body 0)
    id_ref ← gets (find_live data_offer id_id)
    call on_event p (Event.data_device (DataDeviceEvent.selection id_ref)) none)

  unfoldable pub dispatch : ℕ → ℕ → Option ℕ → List ℕ → M (Unit {0})
  dispatch p opcode fd body =
      if opcode == 0
      then data_offer_event p body
      else if opcode == 1
      then enter_event p body
      else if opcode == 2
      then if_handled p 2 (call on_event p (Event.data_device DataDeviceEvent.leave) none)
      else if opcode == 3
      then motion_event p body
      else if opcode == 4
      then if_handled p 4 (call on_event p (Event.data_device DataDeviceEvent.drop) none)
      else if opcode == 5
      then selection_event p body
      else throw unsupported_opcode

-- `AbsorbNewIDs`: what an event on a destroyed object introduces becomes a zombie.
unfoldable pub absorb_new_ids : ℕ → ℕ → List ℕ → M (Unit {0})
absorb_new_ids p opcode body =
    if opcode == 0 then (do id ← lift (uint32_at body 0); absorb_new_id data_offer id) else pure tt
