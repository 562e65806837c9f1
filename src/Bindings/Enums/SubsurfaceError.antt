-- ===== src/Bindings/Enums/SubsurfaceError.antt =====
-- `SubsurfaceError` of client/client.go.
use sysc_wayland.Base.{ℕ, List, [], ◌∷◌}
use sysc_wayland.Bindings.Enums.{Enum, Switch}

abbrev pub constants : List ℕ
constants = 0 ∷ []

-- The cases of `Name`.
abbrev pub names : Switch
names = (0, "bad_surface") ∷ []

-- The cases of `Value`.
abbrev pub values : Switch
values = (0, "0") ∷ []

abbrev pub enum : Enum
enum = record { constants = constants; names = names; values = values }
