-- ===== src/Bindings/Enums/SessionLockSurfaceError.antt =====
-- `ExtSessionLockSurfaceV1Error` of sessionlock/ext_session_lock_v1.go.
use sysc_wayland.Base.{ℕ, List, [], ◌∷◌}
use sysc_wayland.Bindings.Enums.{Enum, Switch}

abbrev pub constants : List ℕ
constants = 0 ∷ 1 ∷ 2 ∷ 3 ∷ []

-- The cases of `Name`.
abbrev pub names : Switch
names =
    (0, "commit_before_first_ack")
    ∷ (1, "null_buffer")
    ∷ (2, "dimensions_mismatch")
    ∷ (3, "invalid_serial")
    ∷ []

-- The cases of `Value`.
abbrev pub values : Switch
values = (0, "0") ∷ (1, "1") ∷ (2, "2") ∷ (3, "3") ∷ []

abbrev pub enum : Enum
enum = record { constants = constants; names = names; values = values }
