-- ===== src/Bindings/Requests/DataSource.antt =====
-- The requests of client/client.go on a `DataSource`. An int32 or a fixed number is given by its bits.
use sysc_wayland.Base.{List, Option, [], ℕ, ◌∷◌}
use sysc_wayland.World.{Error, M}
use sysc_wayland.Wire.{text, word}
use sysc_wayland.Bindings.Requests.{deferred, send}

unfoldable pub offer : ℕ → List ℕ → M (Option Error)
offer p mime_type = send p 0 (text mime_type ∷ []) []

unfoldable pub destroy : ℕ → M (Option Error)
destroy p = deferred p (send p 1 [] [])

unfoldable pub set_actions : ℕ → ℕ → M (Option Error)
set_actions p dnd_actions = send p 2 (word dnd_actions ∷ []) []
