-- ===== src/Bindings/Enums/ShellSurfaceResize.antt =====
-- `ShellSurfaceResize` of client/client.go.
use sysc_wayland.Base.{ℕ, List, [], ◌∷◌}
use sysc_wayland.Bindings.Enums.{Enum, Switch}

abbrev pub constants : List ℕ
constants = 0 ∷ 1 ∷ 2 ∷ 4 ∷ 5 ∷ 6 ∷ 8 ∷ 9 ∷ 10 ∷ []

-- The cases of `Name`.
abbrev pub names : Switch
names =
    (0, "none")
    ∷ (1, "top")
    ∷ (2, "bottom")
    ∷ (4, "left")
    ∷ (5, "top_left")
    ∷ (6, "bottom_left")
    ∷ (8, "right")
    ∷ (9, "top_right")
    ∷ (10, "bottom_right")
    ∷ []

-- The cases of `Value`.
abbrev pub values : Switch
values =
    (0, "0")
    ∷ (1, "1")
    ∷ (2, "2")
    ∷ (4, "4")
    ∷ (5, "5")
    ∷ (6, "6")
    ∷ (8, "8")
    ∷ (9, "9")
    ∷ (10, "10")
    ∷ []

abbrev pub enum : Enum
enum = record { constants = constants; names = names; values = values }
