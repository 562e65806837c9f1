-- ===== src/Bindings/Requests/SessionLockSurface.antt =====
-- The requests of sessionlock/ext_session_lock_v1.go on a `ExtSessionLockSurfaceV1`. An int32 or a fixed number is given by its bits.
use sysc_wayland.Base.{Option, [], ℕ, ◌∷◌}
use sysc_wayland.World.{Error, M}
use sysc_wayland.Wire.{word}
use sysc_wayland.Bindings.Requests.{deferred, send}

unfoldable pub destroy : ℕ → M (Option Error)
destroy p = deferred p (send p 0 [] [])

unfoldable pub ack_configure : ℕ → ℕ → M (Option Error)
ack_configure p serial = send p 1 (word serial ∷ []) []
