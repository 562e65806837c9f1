-- ===== src/Bindings/Enums/TabletToolType.antt =====
-- `ZwpTabletToolV2Type` of cursorshape/tablet_v2.go.
use sysc_wayland.Base.{ℕ, List, [], ◌∷◌}
use sysc_wayland.Bindings.Enums.{Enum, Switch}

abbrev pub constants : List ℕ
constants = 320 ∷ 321 ∷ 322 ∷ 323 ∷ 324 ∷ 325 ∷ 326 ∷ 327 ∷ []

-- The cases of `Name`.
abbrev pub names : Switch
names =
    (320, "pen")
    ∷ (321, "eraser")
    ∷ (322, "brush")
    ∷ (323, "pencil")
    ∷ (324, "airbrush")
    ∷ (325, "finger")
    ∷ (326, "mouse")
    ∷ (327, "lens")
    ∷ []

-- The cases of `Value`.
abbrev pub values : Switch
values =
    (320, "0x140")
    ∷ (321, "0x141")
    ∷ (322, "0x142")
    ∷ (323, "0x143")
    ∷ (324, "0x144")
    ∷ (325, "0x145")
    ∷ (326, "0x146")
    ∷ (327, "0x147")
    ∷ []

abbrev pub enum : Enum
enum = record { constants = constants; names = names; values = values }
