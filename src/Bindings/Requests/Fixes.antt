-- ===== src/Bindings/Requests/Fixes.antt =====
-- The requests of client/client.go on a `Fixes`. An int32 or a fixed number is given by its bits.
use sysc_wayland.Base.{Option, [], ℕ, ◌∷◌}
use sysc_wayland.World.{Error, M, proxy_id}
use sysc_wayland.Wire.{word}
use sysc_wayland.Bindings.Requests.{deferred, send}

unfoldable pub destroy : ℕ → M (Option Error)
destroy p = deferred p (send p 0 [] [])

unfoldable pub destroy_registry : ℕ → ℕ → M (Option Error)
destroy_registry p registry_ref =
    deferred registry_ref (λ w. send p 1 (word (proxy_id registry_ref w) ∷ []) [] w)
