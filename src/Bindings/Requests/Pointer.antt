-- ===== src/Bindings/Requests/Pointer.antt =====
-- The requests of client/client.go on a `Pointer`. An int32 or a fixed number is given by its bits.
use sysc_wayland.Base.{Option, [], ℕ, ◌∷◌}
use sysc_wayland.World.{Error, M}
use sysc_wayland.Wire.{word}
use sysc_wayland.Bindings.Requests.{deferred, object, send}

unfoldable pub set_cursor : ℕ → ℕ → Option ℕ → ℕ → ℕ → M (Option Error)
set_cursor p serial surface_ref hotspot_x hotspot_y w =
    send p 0 (word serial ∷ object surface_ref w ∷ word hotspot_x ∷ word hotspot_y ∷ []) [] w

unfoldable pub release : ℕ → M (Option Error)
release p = deferred p (send p 1 [] [])
