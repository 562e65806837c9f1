-- ===== src/Bindings/Enums/OutputTransform.antt =====
-- `OutputTransform` of client/client.go.
use sysc_wayland.Base.{ℕ, List, [], ◌∷◌}
use sysc_wayland.Bindings.Enums.{Enum, Switch}

abbrev pub constants : List ℕ
constants = 0 ∷ 1 ∷ 2 ∷ 3 ∷ 4 ∷ 5 ∷ 6 ∷ 7 ∷ []

-- The cases of `Name`.
abbrev pub names : Switch
names =
    (0, "normal")
    ∷ (1, "90")
    ∷ (2, "180")
    ∷ (3, "270")
    ∷ (4, "flipped")
    ∷ (5, "flipped_90")
    ∷ (6, "flipped_180")
    ∷ (7, "flipped_270")
    ∷ []

-- The cases of `Value`.
abbrev pub values : Switch
values = (0, "0") ∷ (1, "1") ∷ (2, "2") ∷ (3, "3") ∷ (4, "4") ∷ (5, "5") ∷ (6, "6") ∷ (7, "7") ∷ []

abbrev pub enum : Enum
enum = record { constants = constants; names = names; values = values }
