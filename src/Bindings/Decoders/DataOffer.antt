-- ===== src/Bindings/Decoders/DataOffer.antt =====
-- The decoder of `DataOffer` in client/client.go.
use sysc_wayland.Base.{List, Option, if◌then◌else◌, none, ℕ, ◌==◌}
use sysc_wayland.World.{M, throw, unsupported_opcode}
use sysc_wayland.Wire.{string_at, uint32_at}
use sysc_wayland.Bindings.Events.{Event, DataOfferEvent}
use sysc_wayland.Bindings.Objects.{call, if_handled, lift, ◌>>=◌}

module _ (on_event : ℕ → Event → M (Unit {0})) where
  unfoldable pub offer_event : ℕ → List ℕ → M (Unit {0})
  offer_event p body = if_handled p 0 (do
    (mime_type, l) ← lift (string_at body 0)
    call on_event p (Event.data_offer (DataOfferEvent.offer mime_type)) none)

  unfoldable pub source_actions_event : ℕ → List ℕ → M (Unit {0})
  source_actions_event p body = if_handled p 1 (do
    source_actions ← lift (uint32_at body 0)
    call on_event p (Event.data_offer (DataOfferEvent.source_actions source_actions)) none)

  unfoldable pub action_event : ℕ → List ℕ → M (Unit {0})
  action_event p body = if_handled p 2 (do
    dnd_action ← lift (uint32_at body 0)
    call on_event p (Event.data_offer (DataOfferEvent.action dnd_action)) none)

  unfoldable pub dispatch : ℕ → ℕ → Option ℕ → List ℕ → M (Unit {0})
  dispatch p opcode fd body =
      if opcode == 0
      then offer_event p body
      else if opcode == 1
      then source_actions_event p body
      else if opcode == 2
      then action_event p body
      else throw unsupported_opcode
