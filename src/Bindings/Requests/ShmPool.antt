-- ===== src/Bindings/Requests/ShmPool.antt =====
-- The requests of client/client.go on a `ShmPool`. An int32 or a fixed number is given by its bits.
use sysc_wayland.Base.{Option, [], ℕ, ◌∷◌}
use sysc_wayland.World.{Error, M, buffer}
use sysc_wayland.Wire.{word}
use sysc_wayland.Bindings.Requests.{create, deferred, send}

unfoldable pub create_buffer : ℕ → ℕ → ℕ → ℕ → ℕ → ℕ → M (ℕ × Option Error)
create_buffer p offset width height stride format =
    create buffer p 0
      (λ id w. word id ∷ word offset ∷ word width ∷ word height ∷ word stride ∷ word format ∷ [])

unfoldable pub destroy : ℕ → M (Option Error)
destroy p = deferred p (send p 1 [] [])

unfoldable pub resize : ℕ → ℕ → M (Option Error)
resize p size = send p 2 (word size ∷ []) []
