-- ===== src/Bindings/Decoders/Keyboard.antt =====
-- The decoder of `Keyboard` in client/client.go.
use sysc_wayland.Base.{Bool, List, Option, false, if◌then◌else◌, none, true, ℕ, ◌==◌}
use sysc_wayland.World.{M, gets, surface, throw, unsupported_opcode}
use sysc_wayland.Wire.{array_at, uint32_at}
use sysc_wayland.Bindings.Events.{Event, KeyboardEvent}
use sysc_wayland.Bindings.Objects.{call, find_live, if_handled, if_handled_fd, lift, ◌>>=◌}

-- `HasFD`: only one event carries a descriptor.
unfoldable pub has_fd : ℕ → Bool
has_fd opcode = if opcode == 0 then true else false

module _ (on_event : ℕ → Event → M (Unit {0})) where
  unfoldable pub keymap_event : ℕ → Option ℕ → List ℕ → M (Unit {0})
  keymap_event p fd body = if_handled_fd p 0 fd (do
    format ← lift (uint32_at body 0)
    size ← lift (uint32_at body 4)
    call on_event p (Event.keyboard (KeyboardEvent.keymap format fd size)) fd)

  unfoldable pub enter_event : ℕ → List ℕ → M (Unit {0})
  enter_event p body = if_handled p 1 (do
    serial ← lift (uint32_at body 0)
    surface_id ← lift (uint32_at body 4)
    surface_ref ← gets (find_live surface surface_id)
    (keys, l) ← lift (array_at body 8)
    call on_event p (Event.keyboard (KeyboardEvent.enter serial surface_ref keys)) none)

  unfoldable pub leave_event : ℕ → List ℕ → M (Unit {0})
  leave_event p body = if_handled p 2 (do
    serial ← lift (uint32_at body 0)
    surface_id ← lift (uint32_at body 4)
    surface_ref ← gets (find_live surface surface_id)
    call on_event p (Event.keyboard (KeyboardEvent.leave serial surface_ref)) none)

  unfoldable pub key_event : ℕ → List ℕ → M (Unit {0})
  key_event p body = if_handled p 3 (do
    serial ← lift (uint32_at body 0)
    time ← lift (uint32_at body 4)
    key ← lift (uint32_at body 8)
    state ← lift (uint32_at body 12)
    call on_event p (Event.keyboard (KeyboardEvent.key serial time key state)) none)

  unfoldable pub modifiers_event : ℕ → List ℕ → M (Unit {0})
  modifiers_event p body = if_handled p 4 (do
    serial ← lift (uint32_at body 0)
    mods_depressed ← lift (uint32_at body 4)
    mods_latched ← lift (uint32_at body 8)
    mods_locked ← lift (uint32_at body 12)
    group ← lift (uint32_at body 16)
    call on_event p
        (Event.keyboard
          (KeyboardEvent.modifiers serial mods_depressed mods_latched mods_locked group))
        none)

  unfoldable pub repeat_info_event : ℕ → List ℕ → M (Unit {0})
  repeat_info_event p body = if_handled p 5 (do
    rate ← lift (uint32_at body 0)
    delay ← lift (uint32_at body 4)
    call on_event p (Event.keyboard (KeyboardEvent.repeat_info rate delay)) none)

  unfoldable pub dispatch : ℕ → ℕ → Option ℕ → List ℕ → M (Unit {0})
  dispatch p opcode fd body =
      if opcode == 0
      then keymap_event p fd body
      else if opcode == 1
      then enter_event p body
      else if opcode == 2
      then leave_event p body
      else if opcode == 3
      then key_event p body
      else if opcode == 4
      then modifiers_event p body
      else if opcode == 5
      then repeat_info_event p body
      else throw unsupported_opcode
