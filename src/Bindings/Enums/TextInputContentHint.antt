-- ===== src/Bindings/Enums/TextInputContentHint.antt =====
-- `ZwpTextInputV3ContentHint` of textinput/text_input.go.
use sysc_wayland.Base.{ℕ, List, [], ◌∷◌}
use sysc_wayland.Bindings.Enums.{Enum, Switch}

abbrev pub constants : List ℕ
constants = 0 ∷ 1 ∷ 2 ∷ 4 ∷ 8 ∷ 16 ∷ 32 ∷ 64 ∷ 128 ∷ 256 ∷ 512 ∷ []

-- The cases of `Name`.
abbrev pub names : Switch
names =
    (0, "none")
    ∷ (1, "completion")
    ∷ (2, "spellcheck")
    ∷ (4, "auto_capitalization")
    ∷ (8, "lowercase")
    ∷ (16, "uppercase")
    ∷ (32, "titlecase")
    ∷ (64, "hidden_text")
    ∷ (128, "sensitive_data")
    ∷ (256, "latin")
    ∷ (512, "multiline")
    ∷ []

-- The cases of `Value`.
abbrev pub values : Switch
values =
    (0, "0x0")
    ∷ (1, "0x1")
    ∷ (2, "0x2")
    ∷ (4, "0x4")
    ∷ (8, "0x8")
    ∷ (16, "0x10")
    ∷ (32, "0x20")
    ∷ (64, "0x40")
    ∷ (128, "0x80")
    ∷ (256, "0x100")
    ∷ (512, "0x200")
    ∷ []

abbrev pub enum : Enum
enum = record { constants = constants; names = names; values = values }
