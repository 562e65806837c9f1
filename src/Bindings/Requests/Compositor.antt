-- ===== src/Bindings/Requests/Compositor.antt =====
-- The requests of client/client.go on a `Compositor`. An int32 or a fixed number is given by its bits.
use sysc_wayland.Base.{Option, [], ℕ, ◌∷◌}
use sysc_wayland.World.{Error, M, region, surface}
use sysc_wayland.Wire.{word}
use sysc_wayland.Bindings.Requests.{create, destroy_quietly}

unfoldable pub create_surface : ℕ → M (ℕ × Option Error)
create_surface p = create surface p 0 (λ id w. word id ∷ [])

unfoldable pub create_region : ℕ → M (ℕ × Option Error)
create_region p = create region p 1 (λ id w. word id ∷ [])

unfoldable pub destroy : ℕ → M (Option Error)
destroy p = destroy_quietly p
