-- ===== src/Bindings/Decoders/TabletPadGroup.antt =====
-- The decoder of `ZwpTabletPadGroupV2` in cursorshape/tablet_v2.go.
use sysc_wayland.Base.{List, Option, if◌then◌else◌, none, ℕ, ◌==◌}
use sysc_wayland.World.{M, pure, tablet_pad_ring, tablet_pad_strip, throw, unsupported_opcode}
use sysc_wayland.Wire.{array_at, uint32_at}
use sysc_wayland.Bindings.Events.{Event, TabletPadGroupEvent}
use sysc_wayland.Bindings.Objects.{absorb_new_id, call, if_handled, introduce, lift, ◌>>=◌}

module _ (on_event : ℕ → Event → M (Unit {0})) where
  unfoldable pub buttons_event : ℕ → List ℕ → M (Unit {0})
  buttons_event p body = if_handled p 0 (do
    (buttons, l) ← lift (array_at body 0)
    call on_event p (Event.tablet_pad_group (TabletPadGroupEvent.buttons buttons)) none)

  unfoldable pub ring_event : ℕ → List ℕ → M (Unit {0})
  ring_event p body = do
    ring_id ← lift (uint32_at body 0)
    ring_ref ← introduce tablet_pad_ring ring_id
    if_handled p 1
        (call on_event p (Event.tablet_pad_group (TabletPadGroupEvent.ring ring_ref)) none)

  unfoldable pub strip_event : ℕ → List ℕ → M (Unit {0})
  strip_event p body = do
    strip_id ← lift (uint32_at body 0)
    strip_ref ← introduce tablet_pad_strip strip_id
    if_handled p 2
        (call on_event p (Event.tablet_pad_group (TabletPadGroupEvent.strip strip_ref)) none)

  unfoldable pub modes_event : ℕ → List ℕ → M (Unit {0})
  modes_event p body = if_handled p 3 (do
    modes ← lift (uint32_at body 0)
    call on_event p (Event.tablet_pad_group (TabletPadGroupEvent.modes modes)) none)

  unfoldable pub mode_switch_event : ℕ → List ℕ → M (Unit {0})
  mode_switch_event p body = if_handled p 5 (do
    time ← lift (uint32_at body 0)
    serial ← lift (uint32_at body 4)
    mode ← lift (uint32_at body 8)
    call on_event p (Event.tablet_pad_group (TabletPadGroupEvent.mode_switch time serial mode))
        none)

  unfoldable pub dispatch : ℕ → ℕ → Option ℕ → List ℕ → M (Unit {0})
  dispatch p opcode fd body =
      if opcode == 0
      then buttons_event p body
      else if opcode == 1
      then ring_event p body
      else if opcode == 2
      then strip_event p body
      else if opcode == 3
      then modes_event p body
      else if opcode == 4
      then if_handled p 4 (call on_event p (Event.tablet_pad_group TabletPadGroupEvent.done) none)
      else if opcode == 5
      then mode_switch_event p body
      else throw unsupported_opcode

-- `AbsorbNewIDs`: what an event on a destroyed object introduces becomes a zombie.
unfoldable pub absorb_new_ids : ℕ → ℕ → List ℕ → M (Unit {0})
absorb_new_ids p opcode body =
    if opcode == 1
    then (do id ← lift (uint32_at body 0); absorb_new_id tablet_pad_ring id)
    else if opcode == 2
    then (do id ← lift (uint32_at body 0); absorb_new_id tablet_pad_strip id)
    else pure tt
