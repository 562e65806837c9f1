-- ===== src/Wire/RoundTrip.antt =====
-- Reading back what was written: numbers, strings, nullable strings and arrays.
use sysc_wayland.Base.{
  ℕ, zero, suc, ◌+◌, ◌-◌, ◌%◌, ◌^◌, ◌≤◌, ◌<◌, ◌≡◌, refl, ap, true, List, [], ◌∷◌, ◌++◌, arith, leb,
  length, replicate, length-append, length-replicate, All, drop-append, take-append,
}
use mathlib.Core.List.{append_assoc}
use sysc_wayland.Wire.{
  ok, slice, string, uint32, uint32_at, word_at, length_at, string_at, array_at, le32, padded_len,
  text, array, arg_size,
}
use sysc_wayland.Wire.Request.{encode_arg, padded_len_bounds, length-le32}

-- The slice of `front ++ mid ++ back` that holds `mid`.
pub slice-middle :
    (front mid back : List ℕ) (l n : ℕ)
    → length front ≡ l
    → length mid ≡ n
    → slice (front ++ (mid ++ back)) l n ≡ ok mid
unfolding slice
slice-middle front mid back l n hl hn =
    rw (← hl, ← hn) (rw (fits, drop-append front (mid ++ back), take-append mid back) refl)
  where
    fits : leb (length front + length mid) (length (front ++ (mid ++ back))) ≡ true
    fits = ground (arith, length-append front (mid ++ back), length-append mid back)

uint32-le32 : (v : ℕ) → v < 2 ^ 32 → uint32 (le32 v) ≡ ok v
unfolding uint32 le32
uint32-le32 v h = ap ok (omega arith)

-- A uint32 that was written at offset `l` is read there.
pub uint32_at-le32 :
    (front back : List ℕ) (l v : ℕ)
    → length front ≡ l
    → v < 2 ^ 32
    → uint32_at (front ++ (le32 v ++ back)) l ≡ ok v
unfolding uint32_at
uint32_at-le32 front back l v hl h =
    rw (slice-middle front (le32 v) back l 4 hl (length-le32 v)) (uint32-le32 v h)

pub word_at-le32 :
    (front back : List ℕ) (l v : ℕ)
    → length front ≡ l
    → v < 2 ^ 32
    → word_at (front ++ (le32 v ++ back)) l ≡ v
unfolding word_at
word_at-le32 front back l v h lt = rw (uint32_at-le32 front back l v h lt, word_at) refl

pub ok-injective : {a b : List ℕ} → ok a ≡ ok b → a ≡ b
ok-injective e = cc

-- What `String` reads up to a NUL.
string-nul : (s back : List ℕ) → All (λ c. 0 < c) s → string (s ++ 0 ∷ back) ≡ ok s
unfolding string
string-nul [] back h = refl
string-nul (c ∷ s) back h = ground (arith, string-nul s back h.1)

-- A length whose padded content is all there passes the three checks.
length_at-le32 :
    (front tail : List ℕ) (l n : ℕ)
    → length front ≡ l
    → n < 2 ^ 32
    → padded_len n ≤ length tail
    → length_at (front ++ (le32 n ++ tail)) l ≡ ok (n, l + 4)
unfolding length_at
length_at-le32 front tail l n hl h room =
    let total : length (front ++ (le32 n ++ tail)) ≡ l + 4 + length tail =
      omega
        (arith, length-append front (le32 n ++ tail), length-append (le32 n) tail, length-le32 n) in
    rw total (ground (arith, uint32_at-le32 front tail l n hl h, padded_len_bounds n))

-- The content behind a length.
slice_content :
    (front mid tail : List ℕ) (v l n : ℕ)
    → length front ≡ l
    → length mid ≡ n
    → slice (front ++ (le32 v ++ (mid ++ tail))) (l + 4) n ≡ ok mid
slice_content front mid tail v l n hl hn = rw (← append_assoc front (le32 v) (mid ++ tail)) (
    slice-middle (front ++ le32 v) mid tail (l + 4) n
      (omega (arith, length-append front (le32 v), length-le32 v)) hn)

length-nul : (s : List ℕ) → length (s ++ 0 ∷ []) ≡ length s + 1
length-nul s = length-append s (0 ∷ [])

-- The bytes of a text field behind the NUL.
padding : List ℕ → List ℕ
padding s = replicate (padded_len (length s + 1) - length s - 1) 0

replicate-pos : (n : ℕ) → 0 < n → replicate {A = ℕ} n 0 ≡ 0 ∷ replicate (n - 1) 0
replicate-pos zero h = elim h [ ]
replicate-pos (suc n) h = let e : suc n - 1 ≡ n = omega arith in rw e refl

nul_padding : (s : List ℕ) → replicate (padded_len (length s + 1) - length s) 0 ≡ 0 ∷ padding s
unfolding padding
nul_padding s = replicate-pos _ (omega (arith, padded_len_bounds (length s + 1)))

encode_text :
    (s rest : List ℕ)
    → length s + 1 < 2 ^ 32
    → encode_arg (text s) ++ rest ≡ le32 (length s + 1) ++ ((s ++ 0 ∷ []) ++ (padding s ++ rest))
unfolding encode_arg
encode_text s rest h =
    let small : (length s + 1) % 2 ^ 32 ≡ length s + 1 = omega arith in
    rw (small, nul_padding s) (simp append_assoc)

content_fits :
    (s rest : List ℕ) → padded_len (length s + 1) ≤ length ((s ++ 0 ∷ []) ++ (padding s ++ rest))
unfolding padding
content_fits s rest = omega (
  arith,
  length-append (s ++ 0 ∷ []) (padding s ++ rest),
  length-append (padding s) rest,
  length-replicate {A = ℕ} (padded_len (length s + 1) - length s - 1) 0,
  length-nul s,
  padded_len_bounds (length s + 1),
)

-- A string that was written at offset `l` is read there, whatever stands before and behind it, and
-- the reader goes on right behind the padding. The string holds no NUL of its own.
pub string_at-encode_arg :
    (front s rest : List ℕ) (l : ℕ)
    → length front ≡ l
    → length s + 1 < 2 ^ 32
    → All (λ c. 0 < c) s
    → string_at (front ++ (encode_arg (text s) ++ rest)) l ≡ ok (s, l + arg_size (text s))
unfolding string_at arg_size
string_at-encode_arg front s rest l hl h nonzero = rw (encode_text s rest h) (
    rw (length_at-le32 front _ l _ hl h (content_fits s rest)) (
      rw (slice_content front (s ++ 0 ∷ []) _ _ l (length s + 1) hl (length-nul s))
        (rw (string-nul s [] nonzero) (ap ok (ap (λ m. (s, m)) (omega arith))))))

array_padding : List ℕ → List ℕ
array_padding a = replicate (padded_len (length a) - length a) 0

encode_array :
    (a rest : List ℕ)
    → length a < 2 ^ 32
    → encode_arg (array a) ++ rest ≡ le32 (length a) ++ (a ++ (array_padding a ++ rest))
unfolding encode_arg array_padding
encode_array a rest h =
    let small : length a % 2 ^ 32 ≡ length a = omega arith in rw small (simp append_assoc)

array_fits : (a rest : List ℕ) → padded_len (length a) ≤ length (a ++ (array_padding a ++ rest))
unfolding array_padding
array_fits a rest = omega (
  arith,
  length-append a (array_padding a ++ rest),
  length-append (array_padding a) rest,
  length-replicate {A = ℕ} (padded_len (length a) - length a) 0,
  padded_len_bounds (length a),
)

-- So is an array, whose bytes may be anything.
pub array_at-encode_arg :
    (front a rest : List ℕ) (l : ℕ)
    → length front ≡ l
    → length a < 2 ^ 32
    → array_at (front ++ (encode_arg (array a) ++ rest)) l ≡ ok (a, l + arg_size (array a))
unfolding array_at arg_size
array_at-encode_arg front a rest l hl h = rw (encode_array a rest h) (
    rw (length_at-le32 front _ l _ hl h (array_fits a rest)) (
      rw (slice_content front a _ _ l (length a) hl refl) (ap ok (ap (λ m. (a, m)) (omega arith)))))
