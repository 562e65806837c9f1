-- ===== src/Bindings/Requests/SessionLock.antt =====
-- The requests of sessionlock/ext_session_lock_v1.go on a `ExtSessionLockV1`. An int32 or a fixed number is given by its bits.
use sysc_wayland.Base.{Option, [], ℕ, ◌∷◌}
use sysc_wayland.World.{Error, M, proxy_id, session_lock_surface}
use sysc_wayland.Wire.{word}
use sysc_wayland.Bindings.Requests.{create, deferred, send}

unfoldable pub destroy : ℕ → M (Option Error)
destroy p = deferred p (send p 0 [] [])

unfoldable pub get_lock_surface : ℕ → ℕ → ℕ → M (ℕ × Option Error)
get_lock_surface p surface_ref output_ref =
    create session_lock_surface p 1
      (λ id w. word id ∷ word (proxy_id surface_ref w) ∷ word (proxy_id output_ref w) ∷ [])

unfoldable pub unlock_and_destroy : ℕ → M (Option Error)
unlock_and_destroy p = deferred p (send p 2 [] [])
