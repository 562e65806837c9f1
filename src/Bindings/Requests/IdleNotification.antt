-- ===== src/Bindings/Requests/IdleNotification.antt =====
-- The requests of idle/ext_idle_notify.go on a `ExtIdleNotificationV1`. An int32 or a fixed number is given by its bits.
use sysc_wayland.Base.{Option, [], ℕ}
use sysc_wayland.World.{Error, M}
use sysc_wayland.Bindings.Requests.{deferred, send}

unfoldable pub destroy : ℕ → M (Option Error)
destroy p = deferred p (send p 0 [] [])
