-- ===== src/Bindings/Requests/TabletPadRing.antt =====
-- The requests of cursorshape/tablet_v2.go on a `ZwpTabletPadRingV2`. An int32 or a fixed number is given by its bits.
use sysc_wayland.Base.{List, Option, [], ℕ, ◌∷◌}
use sysc_wayland.World.{Error, M}
use sysc_wayland.Wire.{text, word}
use sysc_wayland.Bindings.Requests.{deferred, send}

unfoldable pub set_feedback : ℕ → List ℕ → ℕ → M (Option Error)
set_feedback p description serial = send p 0 (text description ∷ word serial ∷ []) []

unfoldable pub destroy : ℕ → M (Option Error)
destroy p = deferred p (send p 1 [] [])
