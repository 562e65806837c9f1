-- ===== src/Bindings/Requests/Seat.antt =====
-- The requests of client/client.go on a `Seat`. An int32 or a fixed number is given by its bits.
use sysc_wayland.Base.{Option, [], ℕ, ◌∷◌}
use sysc_wayland.World.{Error, M, keyboard, pointer, touch}
use sysc_wayland.Wire.{word}
use sysc_wayland.Bindings.Requests.{create, deferred, send}

unfoldable pub get_pointer : ℕ → M (ℕ × Option Error)
get_pointer p = create pointer p 0 (λ id w. word id ∷ [])

unfoldable pub get_keyboard : ℕ → M (ℕ × Option Error)
get_keyboard p = create keyboard p 1 (λ id w. word id ∷ [])

unfoldable pub get_touch : ℕ → M (ℕ × Option Error)
get_touch p = create touch p 2 (λ id w. word id ∷ [])

unfoldable pub release : ℕ → M (Option Error)
release p = deferred p (send p 3 [] [])
