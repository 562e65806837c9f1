-- ===== src/Bindings/Enums/TabletPadRingSource.antt =====
-- `ZwpTabletPadRingV2Source` of cursorshape/tablet_v2.go.
use sysc_wayland.Base.{ℕ, List, [], ◌∷◌}
use sysc_wayland.Bindings.Enums.{Enum, Switch}

abbrev pub constants : List ℕ
constants = 1 ∷ []

-- The cases of `Name`.
abbrev pub names : Switch
names = (1, "finger") ∷ []

-- The cases of `Value`.
abbrev pub values : Switch
values = (1, "1") ∷ []

abbrev pub enum : Enum
enum = record { constants = constants; names = names; values = values }
