-- ===== src/Bindings/Enums/SessionLockError.antt =====
-- `ExtSessionLockV1Error` of sessionlock/ext_session_lock_v1.go.
use sysc_wayland.Base.{ℕ, List, [], ◌∷◌}
use sysc_wayland.Bindings.Enums.{Enum, Switch}

abbrev pub constants : List ℕ
constants = 0 ∷ 1 ∷ 2 ∷ 3 ∷ 4 ∷ []

-- The cases of `Name`.
abbrev pub names : Switch
names =
    (0, "invalid_destroy")
    ∷ (1, "invalid_unlock")
    ∷ (2, "role")
    ∷ (3, "duplicate_output")
    ∷ (4, "already_constructed")
    ∷ []

-- The cases of `Value`.
abbrev pub values : Switch
values = (0, "0") ∷ (1, "1") ∷ (2, "2") ∷ (3, "3") ∷ (4, "4") ∷ []

abbrev pub enum : Enum
enum = record { constants = constants; names = names; values = values }
