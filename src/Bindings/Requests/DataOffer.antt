-- ===== src/Bindings/Requests/DataOffer.antt =====
-- The requests of client/client.go on a `DataOffer`. An int32 or a fixed number is given by its bits.
use sysc_wayland.Base.{List, Option, [], ℕ, ◌∷◌}
use sysc_wayland.World.{Error, M}
use sysc_wayland.Wire.{text, word}
use sysc_wayland.Bindings.Requests.{deferred, nullable, send}

unfoldable pub accept : ℕ → ℕ → Option (List ℕ) → M (Option Error)
accept p serial mime_type = send p 0 (word serial ∷ nullable mime_type ∷ []) []

unfoldable pub receive : (ℕ → List ℕ) → ℕ → List ℕ → ℕ → M (Option Error)
receive unix_rights p mime_type fd = send p 1 (text mime_type ∷ []) (unix_rights fd)

unfoldable pub destroy : ℕ → M (Option Error)
destroy p = deferred p (send p 2 [] [])

unfoldable pub finish : ℕ → M (Option Error)
finish p = send p 3 [] []

unfoldable pub set_actions : ℕ → ℕ → ℕ → M (Option Error)
set_actions p dnd_actions preferred_action =
    send p 4 (word dnd_actions ∷ word preferred_action ∷ []) []
