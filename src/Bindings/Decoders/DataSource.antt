-- ===== src/Bindings/Decoders/DataSource.antt =====
-- The decoder of `DataSource` in client/client.go.
use sysc_wayland.Base.{Bool, List, Option, false, if◌then◌else◌, none, true, ℕ, ◌==◌}
use sysc_wayland.World.{M, throw, unsupported_opcode}
use sysc_wayland.Wire.{nullable_string_at, string_at, uint32_at}
use sysc_wayland.Bindings.Events.{Event, DataSourceEvent}
use sysc_wayland.Bindings.Objects.{call, if_handled, if_handled_fd, lift, ◌>>=◌}

-- `HasFD`: only one event carries a descriptor.
unfoldable pub has_fd : ℕ → Bool
has_fd opcode = if opcode == 1 then true else false

module _ (on_event : ℕ → Event → M (Unit {0})) where
  unfoldable pub target_event : ℕ → List ℕ → M (Unit {0})
  target_event p body = if_handled p 0 (do
    (mime_type, l) ← lift (nullable_string_at body 0)
    call on_event p (Event.data_source (DataSourceEvent.target mime_type)) none)

  unfoldable pub send_event : ℕ → Option ℕ → List ℕ → M (Unit {0})
  send_event p fd body = if_handled_fd p 1 fd (do
    (mime_type, l) ← lift (string_at body 0)
    call on_event p (Event.data_source (DataSourceEvent.send mime_type fd)) fd)

  unfoldable pub action_event : ℕ → List ℕ → M (Unit {0})
  action_event p body = if_handled p 5 (do
    dnd_action ← lift (uint32_at body 0)
    call on_event p (Event.data_source (DataSourceEvent.action dnd_action)) none)

  unfoldable pub dispatch : ℕ → ℕ → Option ℕ → List ℕ → M (Unit {0})
  dispatch p opcode fd body =
      if opcode == 0
      then target_event p body
      else if opcode == 1
      then send_event p fd body
      else if opcode == 2
      then if_handled p 2 (call on_event p (Event.data_source DataSourceEvent.cancelled) none)
      else if opcode == 3
      then if_handled p 3
          (call on_event p (Event.data_source DataSourceEvent.dnd_drop_performed) none)
      else if opcode == 4
      then if_handled p 4 (call on_event p (Event.data_source DataSourceEvent.dnd_finished) none)
      else if opcode == 5
      then action_event p body
      else throw unsupported_opcode
