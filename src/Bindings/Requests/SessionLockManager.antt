-- ===== src/Bindings/Requests/SessionLockManager.antt =====
-- The requests of sessionlock/ext_session_lock_v1.go on a `ExtSessionLockManagerV1`. An int32 or a fixed number is given by its bits.
use sysc_wayland.Base.{Option, [], ℕ, ◌∷◌}
use sysc_wayland.World.{Error, M, session_lock}
use sysc_wayland.Wire.{word}
use sysc_wayland.Bindings.Requests.{create, deferred, send}

unfoldable pub destroy : ℕ → M (Option Error)
destroy p = deferred p (send p 0 [] [])

unfoldable pub lock : ℕ → M (ℕ × Option Error)
lock p = create session_lock p 1 (λ id w. word id ∷ [])
