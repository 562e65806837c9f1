-- ===== src/Bindings/Requests/ShellSurface.antt =====
-- The requests of client/client.go on a `ShellSurface`. An int32 or a fixed number is given by its bits.
use sysc_wayland.Base.{List, Option, [], ℕ, ◌∷◌}
use sysc_wayland.World.{Error, M, proxy_id}
use sysc_wayland.Wire.{text, word}
use sysc_wayland.Bindings.Requests.{destroy_quietly, object, send}

unfoldable pub pong : ℕ → ℕ → M (Option Error)
pong p serial = send p 0 (word serial ∷ []) []

unfoldable pub move : ℕ → ℕ → ℕ → M (Option Error)
move p seat_ref serial w = send p 1 (word (proxy_id seat_ref w) ∷ word serial ∷ []) [] w

unfoldable pub resize : ℕ → ℕ → ℕ → ℕ → M (Option Error)
resize p seat_ref serial edges w =
    send p 2 (word (proxy_id seat_ref w) ∷ word serial ∷ word edges ∷ []) [] w

unfoldable pub set_toplevel : ℕ → M (Option Error)
set_toplevel p = send p 3 [] []

unfoldable pub set_transient : ℕ → ℕ → ℕ → ℕ → ℕ → M (Option Error)
set_transient p parent_ref x y flags w =
    send p 4 (word (proxy_id parent_ref w) ∷ word x ∷ word y ∷ word flags ∷ []) [] w

unfoldable pub set_fullscreen : ℕ → ℕ → ℕ → Option ℕ → M (Option Error)
set_fullscreen p method framerate output_ref w =
    send p 5 (word method ∷ word framerate ∷ object output_ref w ∷ []) [] w

unfoldable pub set_popup : ℕ → ℕ → ℕ → ℕ → ℕ → ℕ → ℕ → M (Option Error)
set_popup p seat_ref serial parent_ref x y flags w =
    send p 6
      (word (proxy_id seat_ref w)
        ∷ word serial
        ∷ word (proxy_id parent_ref w)
        ∷ word x
        ∷ word y
        ∷ word flags
        ∷ [])
      [] w

unfoldable pub set_maximized : ℕ → Option ℕ → M (Option Error)
set_maximized p output_ref w = send p 7 (object output_ref w ∷ []) [] w

unfoldable pub set_title : ℕ → List ℕ → M (Option Error)
set_title p title = send p 8 (text title ∷ []) []

unfoldable pub set_class : ℕ → List ℕ → M (Option Error)
set_class p class = send p 9 (text class ∷ []) []

unfoldable pub destroy : ℕ → M (Option Error)
destroy p = destroy_quietly p
