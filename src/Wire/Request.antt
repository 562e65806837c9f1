-- ===== src/Wire/Request.antt =====
-- What the body of a generated request writes, in plain terms.
use sysc_wayland.Base.{
  ℕ, suc, ◌+◌, ◌-◌, ◌*◌, ◌%◌, ◌^◌, ◌≤◌, ◌≡◌, refl, ap, ◌∙◌, List, [], ◌∷◌, ◌++◌, arith, length,
  replicate, length-append, length-replicate,
}
use native.Mathlib.Nat.{zero-add, suc-add}
use mathlib.Core.List.{append_assoc, append-nil}
use sysc_wayland.Wire.{
  ok, on_slice, put_uint32, put_string, put_array, put_nul, copy, le32, padded_len, Arg, word, text,
  array, arg_size, put_arg, put_args, args_size, request,
}
use sysc_wayland.Wire.Buffer.{on_slice-zeros}

-- The wire form of an argument: a string is its length with the NUL, its bytes, and NULs up to a
-- multiple of four; an array is its length, its bytes, and zeros up to a multiple of four.
unfoldable pub encode_arg : Arg → List ℕ
encode_arg (word v) = le32 v
encode_arg (text s) =
    le32 ((length s + 1) % 2 ^ 32) ++ (s ++ replicate (padded_len (length s + 1) - length s) 0)
encode_arg (array a) =
    le32 (length a % 2 ^ 32) ++ (a ++ replicate (padded_len (length a) - length a) 0)

unfoldable pub encode_args : List Arg → List ℕ
unfolding encode_arg
encode_args [] = []
encode_args (a ∷ rest) = encode_arg a ++ encode_args rest

-- `padded_len` rounds up to a multiple of four, by at most three.
pub padded_len_bounds :
    (n : ℕ) → (n ≤ padded_len n) × (padded_len n ≤ n + 3) × (padded_len n % 4 ≡ 0)
unfolding padded_len
padded_len_bounds n = ground arith

pub length-le32 : (v : ℕ) → length (le32 v) ≡ 4
unfolding le32
length-le32 v = refl

pub length-encode_arg : (a : Arg) → (length (encode_arg a) ≡ arg_size a) × (arg_size a % 4 ≡ 0)
unfolding encode_arg arg_size le32
length-encode_arg (word v) = omega arith
length-encode_arg (text s) = omega (
  arith,
  length-append s (replicate (padded_len (length s + 1) - length s) 0),
  length-replicate {A = ℕ} (padded_len (length s + 1) - length s) 0,
  padded_len_bounds (length s + 1),
)
length-encode_arg (array a) = omega (
  arith,
  length-append a (replicate (padded_len (length a) - length a) 0),
  length-replicate {A = ℕ} (padded_len (length a) - length a) 0,
  padded_len_bounds (length a),
)

copy-nil : (dst : List ℕ) → copy dst [] ≡ dst
unfolding copy
copy-nil [] = refl
copy-nil (x ∷ dst) = refl

copy-zeros : (v : List ℕ) (k : ℕ) → copy (replicate (length v + k) 0) v ≡ v ++ replicate k 0
unfolding copy
copy-zeros [] k = rw (zero-add k) (copy-nil (replicate k 0))
copy-zeros (x ∷ v) k = rw (suc-add (length v) k) (ap (◌∷◌ x) (copy-zeros v k))

put_nul-zeros :
    (v : List ℕ) (k : ℕ)
    → put_nul (length v) (v ++ replicate (suc k) 0) ≡ ok (v ++ replicate (suc k) 0)
unfolding put_nul
put_nul-zeros [] k = refl
put_nul-zeros (x ∷ v) k = rw (put_nul-zeros v k)

four_more : (m : ℕ) → 4 + m ≡ suc (suc (suc (suc m)))
four_more m = omega arith

put_uint32-zeros : (v m : ℕ) → put_uint32 v (replicate (4 + m) 0) ≡ ok (le32 v ++ replicate m 0)
unfolding put_uint32
put_uint32-zeros v m = rw (four_more m)

put_string-zeros :
    (s : List ℕ) (k : ℕ)
    → put_string s (replicate (4 + (length s + suc k)) 0)
      ≡ ok (le32 ((length s + 1) % 2 ^ 32) ++ (s ++ replicate (suc k) 0))
unfolding put_string
put_string-zeros s k =
    rw four_more
      (rw (put_uint32-zeros _ 0, copy-zeros s (suc k), put_nul-zeros s k, append-nil (le32 _)) refl)

put_array-zeros :
    (a : List ℕ) (k : ℕ)
    → put_array a (replicate (4 + (length a + k)) 0)
      ≡ ok (le32 (length a % 2 ^ 32) ++ (a ++ replicate k 0))
unfolding put_array
put_array-zeros a k =
    rw four_more (rw (put_uint32-zeros _ 0, copy-zeros a k, append-nil (le32 _)) refl)

-- The same with a field of `n` bytes behind the length.
put_string_field :
    (s : List ℕ) (n k : ℕ)
    → n ≡ length s + suc k
    → put_string s (replicate (4 + n) 0)
      ≡ ok (le32 ((length s + 1) % 2 ^ 32) ++ (s ++ replicate (n - length s) 0))
put_string_field s n k e =
    let gap : length s + suc k - length s ≡ suc k = omega arith in
    rw e (rw gap (put_string-zeros s k))

put_array_field :
    (a : List ℕ) (n k : ℕ)
    → n ≡ length a + k
    → put_array a (replicate (4 + n) 0)
      ≡ ok (le32 (length a % 2 ^ 32) ++ (a ++ replicate (n - length a) 0))
put_array_field a n k e =
    let gap : length a + k - length a ≡ k = omega arith in rw e (rw gap (put_array-zeros a k))

pub put_arg-zeros : (a : Arg) → put_arg a (replicate (arg_size a) 0) ≡ ok (encode_arg a)
unfolding put_arg arg_size encode_arg
put_arg-zeros (word v) = put_uint32-zeros v 0 ∙ ap ok (append-nil (le32 v))
put_arg-zeros (text s) =
    put_string_field s (padded_len (length s + 1)) (padded_len (length s + 1) - length s - 1)
      (omega (arith, padded_len_bounds (length s + 1)))
put_arg-zeros (array a) =
    put_array_field a (padded_len (length a)) (padded_len (length a) - length a)
      (omega (arith, padded_len_bounds (length a)))

put_args-zeros :
    (args : List Arg) (front : List ℕ) (l : ℕ)
    → length front ≡ l
    → put_args args l (front ++ replicate (args_size args) 0) ≡ ok (front ++ encode_args args)
unfolding put_args args_size encode_args
put_args-zeros [] front l h = refl
put_args-zeros (a ∷ rest) front l h =
    rw (on_slice-zeros front l (arg_size a) (args_size rest) (put_arg a) h (put_arg-zeros a)) (
      rw (← append_assoc) (
        put_args-zeros rest (front ++ encode_arg a) (l + arg_size a)
          (omega (arith, length-append front (encode_arg a), length-encode_arg a))
        ∙ ap ok (append_assoc front (encode_arg a) (encode_args rest))))

-- The header of a frame: the sender's ID, and the size above the opcode.
unfoldable pub header_word : ℕ → List Arg → ℕ
header_word opcode args = ((8 + args_size args) * 65536 + opcode % 65536) % 2 ^ 32

put_word : (v : ℕ) → put_uint32 v (replicate 4 0) ≡ ok (le32 v)
put_word v = put_uint32-zeros v 0 ∙ ap ok (append-nil (le32 v))

first_word :
    (id size : ℕ)
    → on_slice 0 4 (put_uint32 id) (replicate (8 + size) 0) ≡ ok (le32 id ++ replicate (4 + size) 0)
first_word id size =
    let e : 8 + size ≡ 4 + (4 + size) = omega arith in
    rw e (on_slice-zeros [] 0 4 (4 + size) (put_uint32 id) refl (put_word id))

-- The in-place writes of a request never go out of range, and the buffer that they leave is the
-- header, then the wire forms of the arguments one behind the other.
pub request-encode_args :
    (id opcode : ℕ) (args : List Arg)
    → request id opcode args ≡ ok (le32 id ++ (le32 (header_word opcode args) ++ encode_args args))
unfolding request header_word
request-encode_args id opcode args = rw (first_word id (args_size args)) (
    rw (on_slice-zeros (le32 id) 4 4 (args_size args) _ (length-le32 id) (put_word _)) (
      rw (← append_assoc) (
        put_args-zeros args (le32 id ++ le32 (header_word opcode args)) 8
          (omega (arith, length-append (le32 id) (le32 (header_word opcode args)), length-le32))
        ∙ ap ok (append_assoc (le32 id) (le32 (header_word opcode args)) (encode_args args)))))

pub length-encode_args :
    (args : List Arg) → (length (encode_args args) ≡ args_size args) × (args_size args % 4 ≡ 0)
unfolding encode_args args_size
length-encode_args [] = omega arith
length-encode_args (a ∷ rest) = omega (
  arith,
  length-append (encode_arg a) (encode_args rest),
  length-encode_arg a,
  length-encode_args rest,
)
