-- ===== src/Bindings/Requests/Subcompositor.antt =====
-- The requests of client/client.go on a `Subcompositor`. An int32 or a fixed number is given by its bits.
use sysc_wayland.Base.{Option, [], ℕ, ◌∷◌}
use sysc_wayland.World.{Error, M, proxy_id, subsurface}
use sysc_wayland.Wire.{word}
use sysc_wayland.Bindings.Requests.{create, deferred, send}

unfoldable pub destroy : ℕ → M (Option Error)
destroy p = deferred p (send p 0 [] [])

unfoldable pub get_subsurface : ℕ → ℕ → ℕ → M (ℕ × Option Error)
get_subsurface p surface_ref parent_ref =
    create subsurface p 1
      (λ id w. word id ∷ word (proxy_id surface_ref w) ∷ word (proxy_id parent_ref w) ∷ [])
