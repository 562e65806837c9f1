-- ===== src/Bindings/Enums/KeyboardKeyState.antt =====
-- `KeyboardKeyState` of client/client.go.
use sysc_wayland.Base.{ℕ, List, [], ◌∷◌}
use sysc_wayland.Bindings.Enums.{Enum, Switch}

abbrev pub constants : List ℕ
constants = 0 ∷ 1 ∷ 2 ∷ []

-- The cases of `Name`.
abbrev pub names : Switch
names = (0, "released") ∷ (1, "pressed") ∷ (2, "repeated") ∷ []

-- The cases of `Value`.
abbrev pub values : Switch
values = (0, "0") ∷ (1, "1") ∷ (2, "2") ∷ []

abbrev pub enum : Enum
enum = record { constants = constants; names = names; values = values }
