-- ===== src/Bindings/Requests/Registry.antt =====
-- The requests of client/client.go on a `Registry`. An int32 or a fixed number is given by its bits.
use sysc_wayland.Base.{List, Option, [], ℕ, ◌∷◌}
use sysc_wayland.World.{Error, M, proxy_id}
use sysc_wayland.Wire.{text, word}
use sysc_wayland.Bindings.Requests.{destroy_quietly, send}

unfoldable pub bind : ℕ → ℕ → List ℕ → ℕ → ℕ → M (Option Error)
bind p name iface version id_ref w =
    send p 0 (word name ∷ text iface ∷ word version ∷ word (proxy_id id_ref w) ∷ []) [] w

unfoldable pub destroy : ℕ → M (Option Error)
destroy p = destroy_quietly p
