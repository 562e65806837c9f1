-- ===== src/Bindings/Enums/OutputSubpixel.antt =====
-- `OutputSubpixel` of client/client.go.
use sysc_wayland.Base.{ℕ, List, [], ◌∷◌}
use sysc_wayland.Bindings.Enums.{Enum, Switch}

abbrev pub constants : List ℕ
constants = 0 ∷ 1 ∷ 2 ∷ 3 ∷ 4 ∷ 5 ∷ []

-- The cases of `Name`.
abbrev pub names : Switch
names =
    (0, "unknown")
    ∷ (1, "none")
    ∷ (2, "horizontal_rgb")
    ∷ (3, "horizontal_bgr")
    ∷ (4, "vertical_rgb")
    ∷ (5, "vertical_bgr")
    ∷ []

-- The cases of `Value`.
abbrev pub values : Switch
values = (0, "0") ∷ (1, "1") ∷ (2, "2") ∷ (3, "3") ∷ (4, "4") ∷ (5, "5") ∷ []

abbrev pub enum : Enum
enum = record { constants = constants; names = names; values = values }
