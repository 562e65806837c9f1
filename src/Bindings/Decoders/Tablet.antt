-- ===== src/Bindings/Decoders/Tablet.antt =====
-- The decoder of `ZwpTabletV2` in cursorshape/tablet_v2.go.
use sysc_wayland.Base.{List, Option, if◌then◌else◌, none, ℕ, ◌==◌}
use sysc_wayland.World.{M, throw, unsupported_opcode}
use sysc_wayland.Wire.{string_at, uint32_at}
use sysc_wayland.Bindings.Events.{Event, TabletEvent}
use sysc_wayland.Bindings.Objects.{call, if_handled, lift, ◌>>=◌}

module _ (on_event : ℕ → Event → M (Unit {0})) where
  unfoldable pub name_event : ℕ → List ℕ → M (Unit {0})
  name_event p body = if_handled p 0 (do
    (name, l) ← lift (string_at body 0)
    call on_event p (Event.tablet (TabletEvent.name name)) none)

  unfoldable pub id_event : ℕ → List ℕ → M (Unit {0})
  id_event p body = if_handled p 1 (do
    vid ← lift (uint32_at body 0)
    pid ← lift (uint32_at body 4)
    call on_event p (Event.tablet (TabletEvent.id vid pid)) none)

  unfoldable pub path_event : ℕ → List ℕ → M (Unit {0})
  path_event p body = if_handled p 2 (do
    (path, l) ← lift (string_at body 0)
    call on_event p (Event.tablet (TabletEvent.path path)) none)

  unfoldable pub dispatch : ℕ → ℕ → Option ℕ → List ℕ → M (Unit {0})
  dispatch p opcode fd body =
      if opcode == 0
      then name_event p body
      else if opcode == 1
      then id_event p body
      else if opcode == 2
      then path_event p body
      else if opcode == 3
      then if_handled p 3 (call on_event p (Event.tablet TabletEvent.done) none)
      else if opcode == 4
      then if_handled p 4 (call on_event p (Event.tablet TabletEvent.removed) none)
      else throw unsupported_opcode
