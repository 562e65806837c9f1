-- ===== src/Bindings/Requests/Region.antt =====
-- The requests of client/client.go on a `Region`. An int32 or a fixed number is given by its bits.
use sysc_wayland.Base.{Option, [], ℕ, ◌∷◌}
use sysc_wayland.World.{Error, M}
use sysc_wayland.Wire.{word}
use sysc_wayland.Bindings.Requests.{deferred, send}

unfoldable pub destroy : ℕ → M (Option Error)
destroy p = deferred p (send p 0 [] [])

unfoldable pub add : ℕ → ℕ → ℕ → ℕ → ℕ → M (Option Error)
add p x y width height = send p 1 (word x ∷ word y ∷ word width ∷ word height ∷ []) []

unfoldable pub subtract : ℕ → ℕ → ℕ → ℕ → ℕ → M (Option Error)
subtract p x y width height = send p 2 (word x ∷ word y ∷ word width ∷ word height ∷ []) []
