-- ===== src/Bindings/Requests/Shm.antt =====
-- The requests of client/client.go on a `Shm`. An int32 or a fixed number is given by its bits.
use sysc_wayland.Base.{List, Option, [], ℕ, ◌∷◌}
use sysc_wayland.World.{Error, M, gets, proxy_id, shm_pool}
use sysc_wayland.Wire.{word}
use sysc_wayland.Ids.{new_object}
use sysc_wayland.Bindings.Objects.{◌>>=◌}
use sysc_wayland.Bindings.Requests.{deferred, send}

unfoldable pub create_pool : (ℕ → List ℕ) → ℕ → ℕ → ℕ → M (ℕ × Option Error)
create_pool unix_rights p fd size = do
  q ← new_object shm_pool
  id ← gets (proxy_id q)
  err ← send p 0 (word id ∷ word size ∷ []) (unix_rights fd)
  gets (λ w. (q, err))

unfoldable pub release : ℕ → M (Option Error)
release p = deferred p (send p 1 [] [])
