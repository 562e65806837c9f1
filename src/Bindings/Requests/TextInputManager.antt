-- ===== src/Bindings/Requests/TextInputManager.antt =====
-- The requests of textinput/text_input.go on a `ZwpTextInputManagerV3`. An int32 or a fixed number is given by its bits.
use sysc_wayland.Base.{Option, [], ℕ, ◌∷◌}
use sysc_wayland.World.{Error, M, proxy_id, text_input}
use sysc_wayland.Wire.{word}
use sysc_wayland.Bindings.Requests.{create, deferred, send}

unfoldable pub destroy : ℕ → M (Option Error)
destroy p = deferred p (send p 0 [] [])

unfoldable pub get_text_input : ℕ → ℕ → M (ℕ × Option Error)
get_text_input p seat_ref =
    create text_input p 1 (λ id w. word id ∷ word (proxy_id seat_ref w) ∷ [])
