-- ===== src/Bindings/Requests/Surface.antt =====
-- The requests of client/client.go on a `Surface`. An int32 or a fixed number is given by its bits.
use sysc_wayland.Base.{Option, [], ℕ, ◌∷◌}
use sysc_wayland.World.{Error, M, callback}
use sysc_wayland.Wire.{word}
use sysc_wayland.Bindings.Requests.{create, deferred, object, send}

unfoldable pub destroy : ℕ → M (Option Error)
destroy p = deferred p (send p 0 [] [])

unfoldable pub attach : ℕ → Option ℕ → ℕ → ℕ → M (Option Error)
attach p buffer_ref x y w = send p 1 (object buffer_ref w ∷ word x ∷ word y ∷ []) [] w

unfoldable pub damage : ℕ → ℕ → ℕ → ℕ → ℕ → M (Option Error)
damage p x y width height = send p 2 (word x ∷ word y ∷ word width ∷ word height ∷ []) []

unfoldable pub frame : ℕ → M (ℕ × Option Error)
frame p = create callback p 3 (λ id w. word id ∷ [])

unfoldable pub set_opaque_region : ℕ → Option ℕ → M (Option Error)
set_opaque_region p region_ref w = send p 4 (object region_ref w ∷ []) [] w

unfoldable pub set_input_region : ℕ → Option ℕ → M (Option Error)
set_input_region p region_ref w = send p 5 (object region_ref w ∷ []) [] w

unfoldable pub commit : ℕ → M (Option Error)
commit p = send p 6 [] []

unfoldable pub set_buffer_transform : ℕ → ℕ → M (Option Error)
set_buffer_transform p transform = send p 7 (word transform ∷ []) []

unfoldable pub set_buffer_scale : ℕ → ℕ → M (Option Error)
set_buffer_scale p scale = send p 8 (word scale ∷ []) []

unfoldable pub damage_buffer : ℕ → ℕ → ℕ → ℕ → ℕ → M (Option Error)
damage_buffer p x y width height = send p 9 (word x ∷ word y ∷ word width ∷ word height ∷ []) []

unfoldable pub offset : ℕ → ℕ → ℕ → M (Option Error)
offset p x y = send p 10 (word x ∷ word y ∷ []) []
