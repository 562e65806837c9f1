-- ===== src/Bindings/Enums/SurfaceError.antt =====
-- `SurfaceError` of client/client.go.
use sysc_wayland.Base.{ℕ, List, [], ◌∷◌}
use sysc_wayland.Bindings.Enums.{Enum, Switch}

abbrev pub constants : List ℕ
constants = 0 ∷ 1 ∷ 2 ∷ 3 ∷ 4 ∷ []

-- The cases of `Name`.
abbrev pub names : Switch
names =
    (0, "invalid_scale")
    ∷ (1, "invalid_transform")
    ∷ (2, "invalid_size")
    ∷ (3, "invalid_offset")
    ∷ (4, "defunct_role_object")
    ∷ []

-- The cases of `Value`.
abbrev pub values : Switch
values = (0, "0") ∷ (1, "1") ∷ (2, "2") ∷ (3, "3") ∷ (4, "4") ∷ []

abbrev pub enum : Enum
enum = record { constants = constants; names = names; values = values }
