-- ===== src/Bindings/Enums/CursorShapeDeviceError.antt =====
-- `WpCursorShapeDeviceV1Error` of cursorshape/cursor_shape.go.
use sysc_wayland.Base.{ℕ, List, [], ◌∷◌}
use sysc_wayland.Bindings.Enums.{Enum, Switch}

abbrev pub constants : List ℕ
constants = 1 ∷ []

-- The cases of `Name`.
abbrev pub names : Switch
names = (1, "invalid_shape") ∷ []

-- The cases of `Value`.
abbrev pub values : Switch
values = (1, "1") ∷ []

abbrev pub enum : Enum
enum = record { constants = constants; names = names; values = values }
