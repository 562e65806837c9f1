-- ===== src/Bindings/Requests/Subsurface.antt =====
-- The requests of client/client.go on a `Subsurface`. An int32 or a fixed number is given by its bits.
use sysc_wayland.Base.{Option, [], ℕ, ◌∷◌}
use sysc_wayland.World.{Error, M, proxy_id}
use sysc_wayland.Wire.{word}
use sysc_wayland.Bindings.Requests.{deferred, send}

unfoldable pub destroy : ℕ → M (Option Error)
destroy p = deferred p (send p 0 [] [])

unfoldable pub set_position : ℕ → ℕ → ℕ → M (Option Error)
set_position p x y = send p 1 (word x ∷ word y ∷ []) []

unfoldable pub place_above : ℕ → ℕ → M (Option Error)
place_above p sibling_ref w = send p 2 (word (proxy_id sibling_ref w) ∷ []) [] w

unfoldable pub place_below : ℕ → ℕ → M (Option Error)
place_below p sibling_ref w = send p 3 (word (proxy_id sibling_ref w) ∷ []) [] w

unfoldable pub set_sync : ℕ → M (Option Error)
set_sync p = send p 4 [] []

unfoldable pub set_desync : ℕ → M (Option Error)
set_desync p = send p 5 [] []
