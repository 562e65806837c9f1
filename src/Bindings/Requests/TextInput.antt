-- ===== src/Bindings/Requests/TextInput.antt =====
-- The requests of textinput/text_input.go on a `ZwpTextInputV3`. An int32 or a fixed number is given by its bits.
use sysc_wayland.Base.{List, Option, [], ℕ, ◌∷◌}
use sysc_wayland.World.{Error, M}
use sysc_wayland.Wire.{text, word}
use sysc_wayland.Bindings.Requests.{deferred, send}

unfoldable pub destroy : ℕ → M (Option Error)
destroy p = deferred p (send p 0 [] [])

unfoldable pub enable : ℕ → M (Option Error)
enable p = send p 1 [] []

unfoldable pub disable : ℕ → M (Option Error)
disable p = send p 2 [] []

unfoldable pub set_surrounding_text : ℕ → List ℕ → ℕ → ℕ → M (Option Error)
set_surrounding_text p string cursor anchor =
    send p 3 (text string ∷ word cursor ∷ word anchor ∷ []) []

unfoldable pub set_text_change_cause : ℕ → ℕ → M (Option Error)
set_text_change_cause p cause = send p 4 (word cause ∷ []) []

unfoldable pub set_content_type : ℕ → ℕ → ℕ → M (Option Error)
set_content_type p hint purpose = send p 5 (word hint ∷ word purpose ∷ []) []

unfoldable pub set_cursor_rectangle : ℕ → ℕ → ℕ → ℕ → ℕ → M (Option Error)
set_cursor_rectangle p x y width height =
    send p 6 (word x ∷ word y ∷ word width ∷ word height ∷ []) []

unfoldable pub commit : ℕ → M (Option Error)
commit p = send p 7 [] []
