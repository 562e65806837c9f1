-- ===== src/Bindings/Enums/PointerAxis.antt =====
-- `PointerAxis` of client/client.go.
use sysc_wayland.Base.{ℕ, List, [], ◌∷◌}
use sysc_wayland.Bindings.Enums.{Enum, Switch}

abbrev pub constants : List ℕ
constants = 0 ∷ 1 ∷ []

-- The cases of `Name`.
abbrev pub names : Switch
names = (0, "vertical_scroll") ∷ (1, "horizontal_scroll") ∷ []

-- The cases of `Value`.
abbrev pub values : Switch
values = (0, "0") ∷ (1, "1") ∷ []

abbrev pub enum : Enum
enum = record { constants = constants; names = names; values = values }
