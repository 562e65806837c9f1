-- ===== src/Bindings/Requests/IdleNotifier.antt =====
-- The requests of idle/ext_idle_notify.go on a `ExtIdleNotifierV1`. An int32 or a fixed number is given by its bits.
use sysc_wayland.Base.{Option, [], ℕ, ◌∷◌}
use sysc_wayland.World.{Error, M, idle_notification, proxy_id}
use sysc_wayland.Wire.{word}
use sysc_wayland.Bindings.Requests.{create, deferred, send}

unfoldable pub destroy : ℕ → M (Option Error)
destroy p = deferred p (send p 0 [] [])

unfoldable pub get_idle_notification : ℕ → ℕ → ℕ → M (ℕ × Option Error)
get_idle_notification p timeout seat_ref =
    create idle_notification p 1 (λ id w. word id ∷ word timeout ∷ word (proxy_id seat_ref w) ∷ [])

unfoldable pub get_input_idle_notification : ℕ → ℕ → ℕ → M (ℕ × Option Error)
get_input_idle_notification p timeout seat_ref =
    create idle_notification p 2 (λ id w. word id ∷ word timeout ∷ word (proxy_id seat_ref w) ∷ [])
