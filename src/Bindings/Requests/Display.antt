-- ===== src/Bindings/Requests/Display.antt =====
-- The requests of client/client.go on a `Display`. An int32 or a fixed number is given by its bits.
use sysc_wayland.Base.{Option, [], ℕ, ◌∷◌}
use sysc_wayland.World.{Error, M, callback, registry}
use sysc_wayland.Wire.{word}
use sysc_wayland.Bindings.Requests.{create, destroy_quietly}

unfoldable pub sync : ℕ → M (ℕ × Option Error)
sync p = create callback p 0 (λ id w. word id ∷ [])

unfoldable pub get_registry : ℕ → M (ℕ × Option Error)
get_registry p = create registry p 1 (λ id w. word id ∷ [])

unfoldable pub destroy : ℕ → M (Option Error)
destroy p = destroy_quietly p
