-- ===== src/Bindings/Enums/OutputMode.antt =====
-- `OutputMode` of client/client.go.
use sysc_wayland.Base.{ℕ, List, [], ◌∷◌}
use sysc_wayland.Bindings.Enums.{Enum, Switch}

abbrev pub constants : List ℕ
constants = 1 ∷ 2 ∷ []

-- The cases of `Name`.
abbrev pub names : Switch
names = (1, "current") ∷ (2, "preferred") ∷ []

-- The cases of `Value`.
abbrev pub values : Switch
values = (1, "0x1") ∷ (2, "0x2") ∷ []

abbrev pub enum : Enum
enum = record { constants = constants; names = names; values = values }
