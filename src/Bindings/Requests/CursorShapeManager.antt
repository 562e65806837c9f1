-- ===== src/Bindings/Requests/CursorShapeManager.antt =====
-- The requests of cursorshape/cursor_shape.go on a `WpCursorShapeManagerV1`. An int32 or a fixed number is given by its bits.
use sysc_wayland.Base.{Option, [], ℕ, ◌∷◌}
use sysc_wayland.World.{Error, M, cursor_shape_device, proxy_id}
use sysc_wayland.Wire.{word}
use sysc_wayland.Bindings.Requests.{create, deferred, send}

unfoldable pub destroy : ℕ → M (Option Error)
destroy p = deferred p (send p 0 [] [])

unfoldable pub get_pointer : ℕ → ℕ → M (ℕ × Option Error)
get_pointer p pointer_ref =
    create cursor_shape_device p 1 (λ id w. word id ∷ word (proxy_id pointer_ref w) ∷ [])

unfoldable pub get_tablet_tool_v2 : ℕ → ℕ → M (ℕ × Option Error)
get_tablet_tool_v2 p tablet_tool_ref =
    create cursor_shape_device p 2 (λ id w. word id ∷ word (proxy_id tablet_tool_ref w) ∷ [])
