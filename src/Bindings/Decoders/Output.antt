-- ===== src/Bindings/Decoders/Output.antt =====
-- The decoder of `Output` in client/client.go.
use sysc_wayland.Base.{List, Option, if◌then◌else◌, none, ℕ, ◌==◌}
use sysc_wayland.World.{M, throw, unsupported_opcode}
use sysc_wayland.Wire.{string_at, uint32_at}
use sysc_wayland.Bindings.Events.{Event, OutputEvent}
use sysc_wayland.Bindings.Objects.{call, if_handled, lift, ◌>>=◌}

module _ (on_event : ℕ → Event → M (Unit {0})) where
  unfoldable pub geometry_event : ℕ → List ℕ → M (Unit {0})
  geometry_event p body = if_handled p 0 (do
    x ← lift (uint32_at body 0)
    y ← lift (uint32_at body 4)
    physical_width ← lift (uint32_at body 8)
    physical_height ← lift (uint32_at body 12)
    subpixel ← lift (uint32_at body 16)
    (make, l) ← lift (string_at body 20)
    (model, l') ← lift (string_at body l)
    transform ← lift (uint32_at body l')
    call on_event p
        (Event.output
          (OutputEvent.geometry x y physical_width physical_height subpixel make model transform))
        none)

  unfoldable pub mode_event : ℕ → List ℕ → M (Unit {0})
  mode_event p body = if_handled p 1 (do
    flags ← lift (uint32_at body 0)
    width ← lift (uint32_at body 4)
    height ← lift (uint32_at body 8)
    refresh ← lift (uint32_at body 12)
    call on_event p (Event.output (OutputEvent.mode flags width height refresh)) none)

  unfoldable pub scale_event : ℕ → List ℕ → M (Unit {0})
  scale_event p body = if_handled p 3 (do
    factor ← lift (uint32_at body 0)
    call on_event p (Event.output (OutputEvent.scale factor)) none)

  unfoldable pub name_event : ℕ → List ℕ → M (Unit {0})
  name_event p body = if_handled p 4 (do
    (name, l) ← lift (string_at body 0)
    call on_event p (Event.output (OutputEvent.name name)) none)

  unfoldable pub description_event : ℕ → List ℕ → M (Unit {0})
  description_event p body = if_handled p 5 (do
    (description, l) ← lift (string_at body 0)
    call on_event p (Event.output (OutputEvent.description description)) none)

  unfoldable pub dispatch : ℕ → ℕ → Option ℕ → List ℕ → M (Unit {0})
  dispatch p opcode fd body =
      if opcode == 0
      then geometry_event p body
      else if opcode == 1
      then mode_event p body
      else if opcode == 2
      then if_handled p 2 (call on_event p (Event.output OutputEvent.done) none)
      else if opcode == 3
      then scale_event p body
      else if opcode == 4
      then name_event p body
      else if opcode == 5
      then description_event p body
      else throw unsupported_opcode
