-- ===== src/Bindings/Requests/CursorShapeDevice.antt =====
-- The requests of cursorshape/cursor_shape.go on a `WpCursorShapeDeviceV1`. An int32 or a fixed number is given by its bits.
use sysc_wayland.Base.{Option, [], ℕ, ◌∷◌}
use sysc_wayland.World.{Error, M}
use sysc_wayland.Wire.{word}
use sysc_wayland.Bindings.Requests.{deferred, send}

unfoldable pub destroy : ℕ → M (Option Error)
destroy p = deferred p (send p 0 [] [])

unfoldable pub set_shape : ℕ → ℕ → ℕ → M (Option Error)
set_shape p serial shape = send p 1 (word serial ∷ word shape ∷ []) []
