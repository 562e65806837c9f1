-- ===== src/Bindings/Decoders/Registry.antt =====
-- The decoder of `Registry` in client/client.go.
use sysc_wayland.Base.{List, Option, if◌then◌else◌, none, ℕ, ◌==◌}
use sysc_wayland.World.{M, throw, unsupported_opcode}
use sysc_wayland.Wire.{string_at, uint32_at}
use sysc_wayland.Bindings.Events.{Event, RegistryEvent}
use sysc_wayland.Bindings.Objects.{call, if_handled, lift, ◌>>=◌}

module _ (on_event : ℕ → Event → M (Unit {0})) where
  unfoldable pub global_event : ℕ → List ℕ → M (Unit {0})
  global_event p body = if_handled p 0 (do
    name ← lift (uint32_at body 0)
    (interface, l) ← lift (string_at body 4)
    version ← lift (uint32_at body l)
    call on_event p (Event.registry (RegistryEvent.global name interface version)) none)

  unfoldable pub global_remove_event : ℕ → List ℕ → M (Unit {0})
  global_remove_event p body = if_handled p 1 (do
    name ← lift (uint32_at body 0)
    call on_event p (Event.registry (RegistryEvent.global_remove name)) none)

  unfoldable pub dispatch : ℕ → ℕ → Option ℕ → List ℕ → M (Unit {0})
  dispatch p opcode fd body =
      if opcode == 0
      then global_event p body
      else if opcode == 1
      then global_remove_event p body
      else throw unsupported_opcode
