-- ===== src/Bindings/Enums/TabletToolCapability.antt =====
-- `ZwpTabletToolV2Capability` of cursorshape/tablet_v2.go.
use sysc_wayland.Base.{ℕ, List, [], ◌∷◌}
use sysc_wayland.Bindings.Enums.{Enum, Switch}

abbrev pub constants : List ℕ
constants = 1 ∷ 2 ∷ 3 ∷ 4 ∷ 5 ∷ 6 ∷ []

-- The cases of `Name`.
abbrev pub names : Switch
names =
    (1, "tilt")
    ∷ (2, "pressure")
    ∷ (3, "distance")
    ∷ (4, "rotation")
    ∷ (5, "slider")
    ∷ (6, "wheel")
    ∷ []

-- The cases of `Value`.
abbrev pub values : Switch
values = (1, "1") ∷ (2, "2") ∷ (3, "3") ∷ (4, "4") ∷ (5, "5") ∷ (6, "6") ∷ []

abbrev pub enum : Enum
enum = record { constants = constants; names = names; values = values }
