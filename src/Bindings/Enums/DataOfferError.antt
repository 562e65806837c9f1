-- ===== src/Bindings/Enums/DataOfferError.antt =====
-- `DataOfferError` of client/client.go.
use sysc_wayland.Base.{ℕ, List, [], ◌∷◌}
use sysc_wayland.Bindings.Enums.{Enum, Switch}

abbrev pub constants : List ℕ
constants = 0 ∷ 1 ∷ 2 ∷ 3 ∷ []

-- The cases of `Name`.
abbrev pub names : Switch
names =
    (0, "invalid_finish")
    ∷ (1, "invalid_action_mask")
    ∷ (2, "invalid_action")
    ∷ (3, "invalid_offer")
    ∷ []

-- The cases of `Value`.
abbrev pub values : Switch
values = (0, "0") ∷ (1, "1") ∷ (2, "2") ∷ (3, "3") ∷ []

abbrev pub enum : Enum
enum = record { constants = constants; names = names; values = values }
