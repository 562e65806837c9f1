-- ===== src/Bindings/Enums/TextInputContentPurpose.antt =====
-- `ZwpTextInputV3ContentPurpose` of textinput/text_input.go.
use sysc_wayland.Base.{ℕ, List, [], ◌∷◌}
use sysc_wayland.Bindings.Enums.{Enum, Switch}

abbrev pub constants : List ℕ
constants = 0 ∷ 1 ∷ 2 ∷ 3 ∷ 4 ∷ 5 ∷ 6 ∷ 7 ∷ 8 ∷ 9 ∷ 10 ∷ 11 ∷ 12 ∷ 13 ∷ []

-- The cases of `Name`.
abbrev pub names : Switch
names =
    (0, "normal")
    ∷ (1, "alpha")
    ∷ (2, "digits")
    ∷ (3, "number")
    ∷ (4, "phone")
    ∷ (5, "url")
    ∷ (6, "email")
    ∷ (7, "name")
    ∷ (8, "password")
    ∷ (9, "pin")
    ∷ (10, "date")
    ∷ (11, "time")
    ∷ (12, "datetime")
    ∷ (13, "terminal")
    ∷ []

-- The cases of `Value`.
abbrev pub values : Switch
values =
    (0, "0")
    ∷ (1, "1")
    ∷ (2, "2")
    ∷ (3, "3")
    ∷ (4, "4")
    ∷ (5, "5")
    ∷ (6, "6")
    ∷ (7, "7")
    ∷ (8, "8")
    ∷ (9, "9")
    ∷ (10, "10")
    ∷ (11, "11")
    ∷ (12, "12")
    ∷ (13, "13")
    ∷ []

abbrev pub enum : Enum
enum = record { constants = constants; names = names; values = values }
