-- ===== src/Bindings/Requests/TabletSeat.antt =====
-- The requests of cursorshape/tablet_v2.go on a `ZwpTabletSeatV2`. An int32 or a fixed number is given by its bits.
use sysc_wayland.Base.{Option, [], ℕ}
use sysc_wayland.World.{Error, M}
use sysc_wayland.Bindings.Requests.{deferred, send}

unfoldable pub destroy : ℕ → M (Option Error)
destroy p = deferred p (send p 0 [] [])
