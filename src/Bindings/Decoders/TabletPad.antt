-- ===== src/Bindings/Decoders/TabletPad.antt =====
-- The decoder of `ZwpTabletPadV2` in cursorshape/tablet_v2.go.
use sysc_wayland.Base.{List, Option, if◌then◌else◌, none, ℕ, ◌==◌}
use sysc_wayland.World.{M, gets, pure, surface, tablet, tablet_pad_group, throw, unsupported_opcode}
use sysc_wayland.Wire.{string_at, uint32_at}
use sysc_wayland.Bindings.Events.{Event, TabletPadEvent}
use sysc_wayland.Bindings.Objects.{
  absorb_new_id, call, find_live, if_handled, introduce, lift, ◌>>=◌,
}

module _ (on_event : ℕ → Event → M (Unit {0})) where
  unfoldable pub group_event : ℕ → List ℕ → M (Unit {0})
  group_event p body = do
    pad_group_id ← lift (uint32_at body 0)
    pad_group_ref ← introduce tablet_pad_group pad_group_id
    if_handled p 0 (call on_event p (Event.tablet_pad (TabletPadEvent.group pad_group_ref)) none)

  unfoldable pub path_event : ℕ → List ℕ → M (Unit {0})
  path_event p body = if_handled p 1 (do
    (path, l) ← lift (string_at body 0)
    call on_event p (Event.tablet_pad (TabletPadEvent.path path)) none)

  unfoldable pub buttons_event : ℕ → List ℕ → M (Unit {0})
  buttons_event p body = if_handled p 2 (do
    buttons ← lift (uint32_at body 0)
    call on_event p (Event.tablet_pad (TabletPadEvent.buttons buttons)) none)

  unfoldable pub button_event : ℕ → List ℕ → M (Unit {0})
  button_event p body = if_handled p 4 (do
    time ← lift (uint32_at body 0)
    button ← lift (uint32_at body 4)
    state ← lift (uint32_at body 8)
    call on_event p (Event.tablet_pad (TabletPadEvent.button time button state)) none)

  unfoldable pub enter_event : ℕ → List ℕ → M (Unit {0})
  enter_event p body = if_handled p 5 (do
    serial ← lift (uint32_at body 0)
    tablet_id ← lift (uint32_at body 4)
    tablet_ref ← gets (find_live tablet tablet_id)
    surface_id ← lift (uint32_at body 8)
    surface_ref ← gets (find_live surface surface_id)
    call on_event p (Event.tablet_pad (TabletPadEvent.enter serial tablet_ref surface_ref)) none)

  unfoldable pub leave_event : ℕ → List ℕ → M (Unit {0})
  leave_event p body = if_handled p 6 (do
    serial ← lift (uint32_at body 0)
    surface_id ← lift (uint32_at body 4)
    surface_ref ← gets (find_live surface surface_id)
    call on_event p (Event.tablet_pad (TabletPadEvent.leave serial surface_ref)) none)

  unfoldable pub dispatch : ℕ → ℕ → Option ℕ → List ℕ → M (Unit {0})
  dispatch p opcode fd body =
      if opcode == 0
      then group_event p body
      else if opcode == 1
      then path_event p body
      else if opcode == 2
      then buttons_event p body
      else if opcode == 3
      then if_handled p 3 (call on_event p (Event.tablet_pad TabletPadEvent.done) none)
      else if opcode == 4
      then button_event p body
      else if opcode == 5
      then enter_event p body
      else if opcode == 6
      then leave_event p body
      else if opcode == 7
      then if_handled p 7 (call on_event p (Event.tablet_pad TabletPadEvent.removed) none)
      else throw unsupported_opcode

-- `AbsorbNewIDs`: what an event on a destroyed object introduces becomes a zombie.
unfoldable pub absorb_new_ids : ℕ → ℕ → List ℕ → M (Unit {0})
absorb_new_ids p opcode body =
    if opcode == 0
    then (do id ← lift (uint32_at body 0); absorb_new_id tablet_pad_group id)
    else pure tt
