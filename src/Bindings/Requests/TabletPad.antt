-- ===== src/Bindings/Requests/TabletPad.antt =====
-- The requests of cursorshape/tablet_v2.go on a `ZwpTabletPadV2`. An int32 or a fixed number is given by its bits.
use sysc_wayland.Base.{List, Option, [], ℕ, ◌∷◌}
use sysc_wayland.World.{Error, M}
use sysc_wayland.Wire.{text, word}
use sysc_wayland.Bindings.Requests.{deferred, send}

unfoldable pub set_feedback : ℕ → ℕ → List ℕ → ℕ → M (Option Error)
set_feedback p button description serial =
    send p 0 (word button ∷ text description ∷ word serial ∷ []) []

unfoldable pub destroy : ℕ → M (Option Error)
destroy p = deferred p (send p 1 [] [])
