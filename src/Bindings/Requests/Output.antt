-- ===== src/Bindings/Requests/Output.antt =====
-- The requests of client/client.go on a `Output`. An int32 or a fixed number is given by its bits.
use sysc_wayland.Base.{Option, [], ℕ}
use sysc_wayland.World.{Error, M}
use sysc_wayland.Bindings.Requests.{deferred, send}

unfoldable pub release : ℕ → M (Option Error)
release p = deferred p (send p 0 [] [])
