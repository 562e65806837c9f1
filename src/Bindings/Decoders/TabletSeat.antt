-- ===== src/Bindings/Decoders/TabletSeat.antt =====
-- The decoder of `ZwpTabletSeatV2` in cursorshape/tablet_v2.go.
use sysc_wayland.Base.{List, Option, if◌then◌else◌, none, ℕ, ◌==◌}
use sysc_wayland.World.{M, pure, tablet, tablet_pad, tablet_tool, throw, unsupported_opcode}
use sysc_wayland.Wire.{uint32_at}
use sysc_wayland.Bindings.Events.{Event, TabletSeatEvent}
use sysc_wayland.Bindings.Objects.{absorb_new_id, call, if_handled, introduce, lift, ◌>>=◌}

module _ (on_event : ℕ → Event → M (Unit {0})) where
  unfoldable pub tablet_added_event : ℕ → List ℕ → M (Unit {0})
  tablet_added_event p body = do
    id_id ← lift (uint32_at body 0)
    id_ref ← introduce tablet id_id
    if_handled p 0 (call on_event p (Event.tablet_seat (TabletSeatEvent.tablet_added id_ref)) none)

  unfoldable pub tool_added_event : ℕ → List ℕ → M (Unit {0})
  tool_added_event p body = do
    id_id ← lift (uint32_at body 0)
    id_ref ← introduce tablet_tool id_id
    if_handled p 1 (call on_event p (Event.tablet_seat (TabletSeatEvent.tool_added id_ref)) none)

  unfoldable pub pad_added_event : ℕ → List ℕ → M (Unit {0})
  pad_added_event p body = do
    id_id ← lift (uint32_at body 0)
    id_ref ← introduce tablet_pad id_id
    if_handled p 2 (call on_event p (Event.tablet_seat (TabletSeatEvent.pad_added id_ref)) none)

  unfoldable pub dispatch : ℕ → ℕ → Option ℕ → List ℕ → M (Unit {0})
  dispatch p opcode fd body =
      if opcode == 0
      then tablet_added_event p body
      else if opcode == 1
      then tool_added_event p body
      else if opcode == 2
      then pad_added_event p body
      else throw unsupported_opcode

-- `AbsorbNewIDs`: what an event on a destroyed object introduces becomes a zombie.
unfoldable pub absorb_new_ids : ℕ → ℕ → List ℕ → M (Unit {0})
absorb_new_ids p opcode body =
    if opcode == 0
    then (do id ← lift (uint32_at body 0); absorb_new_id tablet id)
    else if opcode == 1
    then (do id ← lift (uint32_at body 0); absorb_new_id tablet_tool id)
    else if opcode == 2
    then (do id ← lift (uint32_at body 0); absorb_new_id tablet_pad id)
    else pure tt
