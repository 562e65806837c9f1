-- ===== src/Bindings/Requests/TabletManager.antt =====
-- The requests of cursorshape/tablet_v2.go on a `ZwpTabletManagerV2`. An int32 or a fixed number is given by its bits.
use sysc_wayland.Base.{Option, [], ℕ, ◌∷◌}
use sysc_wayland.World.{Error, M, proxy_id, tablet_seat}
use sysc_wayland.Wire.{word}
use sysc_wayland.Bindings.Requests.{create, deferred, send}

unfoldable pub get_tablet_seat : ℕ → ℕ → M (ℕ × Option Error)
get_tablet_seat p seat_ref =
    create tablet_seat p 0 (λ id w. word id ∷ word (proxy_id seat_ref w) ∷ [])

unfoldable pub destroy : ℕ → M (Option Error)
destroy p = deferred p (send p 1 [] [])
