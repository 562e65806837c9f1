-- ===== src/Bindings/Requests/Shell.antt =====
-- The requests of client/client.go on a `Shell`. An int32 or a fixed number is given by its bits.
use sysc_wayland.Base.{Option, [], ℕ, ◌∷◌}
use sysc_wayland.World.{Error, M, proxy_id, shell_surface}
use sysc_wayland.Wire.{word}
use sysc_wayland.Bindings.Requests.{create, destroy_quietly}

unfoldable pub get_shell_surface : ℕ → ℕ → M (ℕ × Option Error)
get_shell_surface p surface_ref =
    create shell_surface p 0 (λ id w. word id ∷ word (proxy_id surface_ref w) ∷ [])

unfoldable pub destroy : ℕ → M (Option Error)
destroy p = destroy_quietly p
