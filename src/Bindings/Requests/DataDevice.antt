-- ===== src/Bindings/Requests/DataDevice.antt =====
-- The requests of client/client.go on a `DataDevice`. An int32 or a fixed number is given by its bits.
use sysc_wayland.Base.{Option, [], ℕ, ◌∷◌}
use sysc_wayland.World.{Error, M, proxy_id}
use sysc_wayland.Wire.{word}
use sysc_wayland.Bindings.Requests.{deferred, object, send}

unfoldable pub start_drag : ℕ → Option ℕ → ℕ → Option ℕ → ℕ → M (Option Error)
start_drag p source_ref origin_ref icon_ref serial w =
    send p 0
      (object source_ref w ∷ word (proxy_id origin_ref w) ∷ object icon_ref w ∷ word serial ∷ []) []
      w

unfoldable pub set_selection : ℕ → Option ℕ → ℕ → M (Option Error)
set_selection p source_ref serial w = send p 1 (object source_ref w ∷ word serial ∷ []) [] w

unfoldable pub release : ℕ → M (Option Error)
release p = deferred p (send p 2 [] [])
