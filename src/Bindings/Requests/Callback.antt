-- ===== src/Bindings/Requests/Callback.antt =====
-- The requests of client/client.go on a `Callback`. An int32 or a fixed number is given by its bits.
use sysc_wayland.Base.{Option, ℕ}
use sysc_wayland.World.{Error, M}
use sysc_wayland.Bindings.Requests.{destroy_quietly}

unfoldable pub destroy : ℕ → M (Option Error)
destroy p = destroy_quietly p
