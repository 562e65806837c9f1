-- ===== src/Bindings/Enums/Numerals.antt =====
-- Numerals as the protocol files write them: decimal, or hexadecimal behind `0x`.
use Prim.Native.Nat.{ℕ}
use Prim.Native.Char.{code}
use Prim.Native.String.{String}
use sysc_wayland.Base.{
  ◌+◌, ◌-◌, ◌*◌, ◌&&◌, List, [], ◌∷◌, Option, none, some, ltb, leb, ◌==◌, if◌then◌else◌,
}

-- The code points of a text.
abbrev codes : String → List ℕ
codes String.[] = []
codes (String.◌∷◌ c s) = code c ∷ codes s

-- The value of a digit, and 16 for any other character.
abbrev digit : ℕ → ℕ
digit c =
    if leb b'0' c && leb c b'9'
    then c - b'0'
    else if leb b'a' c && leb c b'f'
    then c - b'a' + 10
    else if leb b'A' c && leb c b'F'
    then c - b'A' + 10
    else 16

abbrev digits : ℕ → ℕ → List ℕ → Option ℕ
digits base n [] = some n
digits base n (c ∷ cs) =
    let more = digits base (n * base + digit c) cs in if ltb (digit c) base then more else none

abbrev hexadecimal : List ℕ → Option ℕ
hexadecimal [] = none
hexadecimal (c ∷ cs) = digits 16 0 (c ∷ cs)

abbrev behind_zero : List ℕ → Option ℕ
behind_zero [] = some 0
behind_zero (c ∷ cs) = if c == b'x' then hexadecimal cs else digits 10 0 (c ∷ cs)

abbrev numeral_of : List ℕ → Option ℕ
numeral_of [] = none
numeral_of (c ∷ cs) = if c == b'0' then behind_zero cs else digits 10 0 (c ∷ cs)

abbrev pub numeral : String → Option ℕ
numeral s = numeral_of (codes s)
