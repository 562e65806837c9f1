-- ===== src/Wire.antt =====
-- The wire format: `Uint32` and `String` of client/event.go, `PutUint32`, `PutString` and `PutArray`
-- of client/request.go, `PaddedLen` of client/util.go, and the two ways in which generated code
-- puts them together: the decoder of a string or array argument, and the body of a request.
-- A byte slice is a list of bytes, and the machine is little-endian.
pub mod Buffer
pub mod Request
pub mod RoundTrip
pub mod Bounds
use sysc_wayland.Base.{
  ℕ, zero, suc, ◌+◌, ◌-◌, ◌*◌, ◌/◌, ◌%◌, ◌^◌, Bool, true, false, not, List, [], ◌∷◌, ◌++◌, Option,
  none, some, ltb, leb, ◌==◌, if◌then◌else◌, length, take, drop, replicate,
}
use sysc_wayland.World.{
  Panic, out_of_range, missing_nul, truncated_length, truncated_body, truncated_padding,
}

-- Code without effects that may panic.
pub data Checked {ℓ} (A : Type ℓ) : Type ℓ where
  ok : A → Checked A
  fail : Panic → Checked A

infixl 5 ◌>>=◌ ◌>>◌
abbrev pub ◌>>=◌ {ℓ κ} : {A : Type ℓ} {B : Type κ} → Checked A → (A → Checked B) → Checked B
ok a >>= f = f a
fail e >>= f = fail e

abbrev pub ◌>>◌ {ℓ} : {B : Type ℓ} → Checked (Unit {0}) → Checked B → Checked B
m >> k = m >>= λ _. k

-- `if !test { panic(p) }`
abbrev pub require : Bool → Panic → Checked (Unit {0})
require true p = ok tt
require false p = fail p

-- `src[l : l+n]`, of a slice whose capacity is its length.
pub slice : List ℕ → ℕ → ℕ → Checked (List ℕ)
slice src l n = do require (leb (l + n) (length src)) out_of_range; ok (take n (drop l src))

pub uint32 : List ℕ → Checked ℕ
uint32 (a ∷ b ∷ c ∷ d ∷ rest) = ok (a + 256 * b + 65536 * c + 16777216 * d)
uint32 _ = fail out_of_range

-- `src[:bytes.IndexByte(src, 0)]`
pub string : List ℕ → Checked (List ℕ)
string [] = fail missing_nul
string (c ∷ rest) = let more = string rest in if c == 0 then ok [] else more >>= λ s. ok (c ∷ s)

-- `l & 0x3` is `l % 4`.
pub padded_len : ℕ → ℕ
padded_len l = if not (l % 4 == 0) then l + (4 - l % 4) else l

-- `Uint32(data[l : l+4])`
unfoldable pub uint32_at : List ℕ → ℕ → Checked ℕ
unfolding slice uint32
uint32_at bytes l = do src ← slice bytes l 4; uint32 src

-- `Uint32` at an offset of a header. The header has its eight bytes wherever the code reads it, so
-- that the 0 for a slice out of range never shows.
unfoldable pub word_at : List ℕ → ℕ → ℕ
word_at bytes l = elim (uint32_at bytes l) [ ok v ↦ v | fail p ↦ 0 ]

-- The length of a string or array argument, with its three checks, and the offset behind it.
unfoldable pub length_at : List ℕ → ℕ → Checked (ℕ × ℕ)
unfolding uint32_at padded_len
length_at bytes l = do
  require (not (ltb (length bytes - l) 4)) truncated_length
  n ← uint32_at bytes l
  require (not (ltb (length bytes - (l + 4)) n)) truncated_body
  require (not (ltb (length bytes - (l + 4)) (padded_len n))) truncated_padding
  ok (n, l + 4)

-- A string argument, and the offset of the next one.
unfoldable pub string_at : List ℕ → ℕ → Checked (List ℕ × ℕ)
unfolding length_at slice string padded_len
string_at bytes l = do
  (n, l') ← length_at bytes l
  src ← slice bytes l' n
  s ← string src
  ok (s, l' + padded_len n)

-- A string argument that may be NULL, which the wire writes as length 0.
unfoldable pub nullable_string_at : List ℕ → ℕ → Checked (Option (List ℕ) × ℕ)
unfolding length_at slice string padded_len
nullable_string_at bytes l = do
  (n, l') ← length_at bytes l
  let text = slice bytes l' n >>= string >>= λ s. ok (some s, l' + padded_len n)
  if n == 0 then ok (none, l' + padded_len n) else text

-- An array argument, and the offset of the next one.
unfoldable pub array_at : List ℕ → ℕ → Checked (List ℕ × ℕ)
unfolding length_at slice padded_len
array_at bytes l = do
  (n, l') ← length_at bytes l
  src ← slice bytes l' n
  ok (src, l' + padded_len n)

-- The bytes of a uint32.
unfoldable pub le32 : ℕ → List ℕ
le32 v = v % 256 ∷ v / 256 % 256 ∷ v / 65536 % 256 ∷ v / 16777216 % 256 ∷ []

-- `dst` after the call.
pub put_uint32 : ℕ → List ℕ → Checked (List ℕ)
put_uint32 v (a ∷ b ∷ c ∷ d ∷ rest) = ok (le32 v ++ rest)
put_uint32 v _ = fail out_of_range

-- Go's `copy(dst, src)`.
pub copy : List ℕ → List ℕ → List ℕ
copy [] src = []
copy (x ∷ dst) [] = x ∷ dst
copy (x ∷ dst) (y ∷ src) = y ∷ copy dst src

-- `dst[i] = 0`
pub put_nul : ℕ → List ℕ → Checked (List ℕ)
put_nul i [] = fail out_of_range
put_nul zero (x ∷ dst) = ok (0 ∷ dst)
put_nul (suc i) (x ∷ dst) = do dst' ← put_nul i dst; ok (x ∷ dst')

pub put_string : List ℕ → List ℕ → Checked (List ℕ)
put_string v dst = do
  head ← put_uint32 ((length v + 1) % 2 ^ 32) (take 4 dst)
  rest ← put_nul (length v) (copy (drop 4 dst) v)
  ok (head ++ rest)

pub put_array : List ℕ → List ℕ → Checked (List ℕ)
put_array a dst = do
  head ← put_uint32 (length a % 2 ^ 32) (take 4 dst)
  ok (head ++ copy (drop 4 dst) a)

-- `f(buf[l : l+n])`, where `f` writes through the slice that it is given.
pub on_slice : ℕ → ℕ → (List ℕ → Checked (List ℕ)) → List ℕ → Checked (List ℕ)
on_slice l n f buf = do
  require (leb (l + n) (length buf)) out_of_range
  dst ← f (take n (drop l buf))
  ok (take l buf ++ (dst ++ drop (l + n) buf))

-- An argument of a request: a uint32 (also an object's ID, a new ID, an int32 or a fixed number as
-- its bits, and the 0 of a NULL object or string), a string, or an array.
pub data Arg : Type 0 where
  word : ℕ → Arg
  text array : List ℕ → Arg

-- What the argument adds to `_reqBufLen`.
unfoldable pub arg_size : Arg → ℕ
unfolding padded_len
arg_size (word v) = 4
arg_size (text s) = 4 + padded_len (length s + 1)
arg_size (array a) = 4 + padded_len (length a)

pub put_arg : Arg → List ℕ → Checked (List ℕ)
put_arg (word v) dst = put_uint32 v dst
put_arg (text s) dst = put_string s dst
put_arg (array a) dst = put_array a dst

-- The arguments one after the other, from offset `l` on.
pub put_args : List Arg → ℕ → List ℕ → Checked (List ℕ)
put_args [] l buf = ok buf
put_args (a ∷ rest) l buf = do
  buf' ← on_slice l (arg_size a) (put_arg a) buf
  put_args rest (l + arg_size a) buf'

unfoldable pub args_size : List Arg → ℕ
args_size [] = 0
args_size (a ∷ rest) = arg_size a + args_size rest

-- The frame that the body of a generated request builds: a zeroed buffer of `_reqBufLen` bytes, the
-- sender's ID, `uint32(_reqBufLen<<16|opcode&0x0000ffff)`, and the arguments.
pub request : ℕ → ℕ → List Arg → Checked (List ℕ)
request id opcode args = do
  let size = 8 + args_size args
  buf ← on_slice 0 4 (put_uint32 id) (replicate size 0)
  buf' ← on_slice 4 4 (put_uint32 ((size * 65536 + opcode % 65536) % 2 ^ 32)) buf
  put_args args 8 buf'
