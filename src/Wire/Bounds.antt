-- ===== src/Wire/Bounds.antt =====
-- The checks of the string decoder, and the slices that they guard.
use sysc_wayland.Base.{
  ℕ, zero, suc, ◌+◌, ◌-◌, ◌≤◌, ◌<◌, ◌≡◌, refl, List, [], ◌∷◌, arith, ltb, ◌==◌, length, take, drop,
  length-drop, Bool-cases, ◌⊎◌, inl, inr,
}
use sysc_wayland.Wire.Request.{padded_len_bounds}
use sysc_wayland.World.{truncated_length, truncated_body, truncated_padding, missing_nul}
use sysc_wayland.Wire.{
  Checked, ok, fail, slice, string, uint32, uint32_at, length_at, string_at, padded_len,
}

length-take_le {ℓ} : {A : Type ℓ} (n : ℕ) (xs : List A) → n ≤ length xs → length (take n xs) ≡ n
length-take_le zero xs h = refl
length-take_le (suc n) [] h = absurd (omega arith)
length-take_le (suc n) (x ∷ xs) h = omega (arith, length-take_le n xs)

uint32_long : (s : List ℕ) → 4 ≤ length s → (v : ℕ) × (uint32 s ≡ ok v)
unfolding uint32
uint32_long (a ∷ b ∷ c ∷ d ∷ rest) h = (_, refl)
uint32_long _ h = absurd (omega arith)

pub slice_within :
    (src : List ℕ) (l n : ℕ)
    → l + n ≤ length src
    → (out : List ℕ) × (slice src l n ≡ ok out) × (length out ≡ n)
unfolding slice
slice_within src l n h = (
  take n (drop l src),
  ground arith,
  length-take_le n (drop l src) (omega (arith, length-drop l src)),
)

uint32_at_within :
    (bytes : List ℕ) (l : ℕ) → l + 4 ≤ length bytes → (v : ℕ) × (uint32_at bytes l ≡ ok v)
unfolding uint32_at
uint32_at_within bytes l h =
    let (out, e, n) = slice_within bytes l 4 h in
    let (v, r) = uint32_long out (omega arith) in (v, rw e r)

-- A length is followed by its padded content, or the decoder has panicked by one of the checks.
pub LengthFits : List ℕ → ℕ → Checked (ℕ × ℕ) → Type 0
LengthFits bytes l (fail p) =
    (p ≡ truncated_length) ⊎ ((p ≡ truncated_body) ⊎ (p ≡ truncated_padding))
LengthFits bytes l (ok (n, l')) =
    (l' ≡ l + 4) × (l' + n ≤ length bytes) × (l' + padded_len n ≤ length bytes)

pub length_at-LengthFits : (bytes : List ℕ) (l : ℕ) → LengthFits bytes l (length_at bytes l)
unfolding length_at LengthFits
length_at-LengthFits bytes l = elim (Bool-cases (ltb (length bytes - l) 4)) [
  | inl short ↦ rw short (inl refl)
  | inr long ↦ let (n, e) = uint32_at_within bytes l (ground arith) in rw (long, e) (ground arith)
]

string_cases :
    (src : List ℕ)
    → ((s : List ℕ) × (string src ≡ ok s) × (length s < length src))
      ⊎ (string src ≡ fail missing_nul)
unfolding string
string_cases [] = inr refl
string_cases (c ∷ rest) = elim (Bool-cases (c == 0)) [
  | inl nul ↦ inl ([], rw nul, omega arith)
  | inr more ↦ elim (string_cases rest) [
    | inl (s, e, h) ↦ inl (c ∷ s, rw (more, e), omega arith)
    | inr e ↦ inr (rw (more, e))
  ]
]

-- The outcome of a string argument at offset `l`: one of the panics that the decoder and `String`
-- state, or a string that ends before the next offset, which lies within the event.
abbrev pub StringFits : List ℕ → ℕ → Checked (List ℕ × ℕ) → Type 0
StringFits bytes l (fail p) =
    (p ≡ missing_nul) ⊎ ((p ≡ truncated_length) ⊎ ((p ≡ truncated_body) ⊎ (p ≡ truncated_padding)))
StringFits bytes l (ok (s, l')) = (l + 4 + length s < l') × (l' ≤ length bytes)

StringFits-from :
    (bytes : List ℕ) (l : ℕ) (r : Checked (ℕ × ℕ))
    → length_at bytes l ≡ r
    → LengthFits bytes l r
    → StringFits bytes l (string_at bytes l)
unfolding string_at LengthFits
StringFits-from bytes l (fail p) e h = rw e (inr h)
StringFits-from bytes l (ok (n, l')) e (at, fits, padded) =
    let (out, s, size) = slice_within bytes l' n fits in
    elim (string_cases out) [
      | inl (t, g, short) ↦ rw (e, s, g) (omega (arith, padded_len_bounds n), padded)
      | inr g ↦ rw (e, s, g) (inl refl)
    ]

-- Decoding a string argument never reads outside the event: each way to fail is one of the
-- decoder's own panics, and a success moves on within the event.
pub string_at-StringFits : (bytes : List ℕ) (l : ℕ) → StringFits bytes l (string_at bytes l)
string_at-StringFits bytes l = StringFits-from bytes l _ refl (length_at-LengthFits bytes l)
