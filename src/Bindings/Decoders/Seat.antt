-- ===== src/Bindings/Decoders/Seat.antt =====
-- The decoder of `Seat` in client/client.go.
use sysc_wayland.Base.{List, Option, if◌then◌else◌, none, ℕ, ◌==◌}
use sysc_wayland.World.{M, throw, unsupported_opcode}
use sysc_wayland.Wire.{string_at, uint32_at}
use sysc_wayland.Bindings.Events.{Event, SeatEvent}
use sysc_wayland.Bindings.Objects.{call, if_handled, lift, ◌>>=◌}

module _ (on_event : ℕ → Event → M (Unit {0})) where
  unfoldable pub capabilities_event : ℕ → List ℕ → M (Unit {0})
  capabilities_event p body = if_handled p 0 (do
    capabilities ← lift (uint32_at body 0)
    call on_event p (Event.seat (SeatEvent.capabilities capabilities)) none)

  unfoldable pub name_event : ℕ → List ℕ → M (Unit {0})
  name_event p body = if_handled p 1 (do
    (name, l) ← lift (string_at body 0)
    call on_event p (Event.seat (SeatEvent.name name)) none)

  unfoldable pub dispatch : ℕ → ℕ → Option ℕ → List ℕ → M (Unit {0})
  dispatch p opcode fd body =
      if opcode == 0
      then capabilities_event p body
      else if opcode == 1
      then name_event p body
      else throw unsupported_opcode
