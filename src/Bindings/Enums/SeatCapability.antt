-- ===== src/Bindings/Enums/SeatCapability.antt =====
-- `SeatCapability` of client/client.go.
use sysc_wayland.Base.{ℕ, List, [], ◌∷◌}
use sysc_wayland.Bindings.Enums.{Enum, Switch}

abbrev pub constants : List ℕ
constants = 1 ∷ 2 ∷ 4 ∷ []

-- The cases of `Name`.
abbrev pub names : Switch
names = (1, "pointer") ∷ (2, "keyboard") ∷ (4, "touch") ∷ []

-- The cases of `Value`.
abbrev pub values : Switch
values = (1, "1") ∷ (2, "2") ∷ (4, "4") ∷ []

abbrev pub enum : Enum
enum = record { constants = constants; names = names; values = values }
