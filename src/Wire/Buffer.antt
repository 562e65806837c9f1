-- ===== src/Wire/Buffer.antt =====
-- Writing through slices of one zeroed buffer, front to back.
use sysc_wayland.Base.{
  ℕ, zero, suc, ◌+◌, ◌≡◌, refl, ap, true, List, ◌∷◌, ◌++◌, arith, leb, length, drop, replicate,
  length-append, length-replicate, drop-append, take-append,
}
use native.Mathlib.Nat.{zero-add, suc-add}
use mathlib.Core.List.{append_assoc}
use sysc_wayland.Wire.{Checked, ok, on_slice}

pub replicate-add {ℓ} :
    {A : Type ℓ} (m n : ℕ) (x : A) → replicate (m + n) x ≡ replicate m x ++ replicate n x
replicate-add zero n x = rw (zero-add n) refl
replicate-add (suc m) n x = rw (suc-add m n) (ap (◌∷◌ x) (replicate-add m n x))

drop-append_add :
    (front mid back : List ℕ) → drop (length front + length mid) (front ++ (mid ++ back)) ≡ back
drop-append_add front mid back =
    rw (← append_assoc front mid back, ← length-append front mid) (drop-append (front ++ mid) back)

slice_fits :
    (front mid back : List ℕ)
    → leb (length front + length mid) (length (front ++ (mid ++ back))) ≡ true
slice_fits front mid back =
    ground (arith, length-append front (mid ++ back), length-append mid back)

-- A write through the slice that holds `mid`.
pub on_slice-middle :
    (front mid back : List ℕ) (l n : ℕ) (f : List ℕ → Checked (List ℕ)) {out : List ℕ}
    → length front ≡ l
    → length mid ≡ n
    → f mid ≡ ok out
    → on_slice l n f (front ++ (mid ++ back)) ≡ ok (front ++ (out ++ back))
unfolding on_slice
on_slice-middle front mid back l n f hl hn e =
    rw (← hl, ← hn)
      (rw
        (
          slice_fits front mid back,
          drop-append_add front mid back,
          drop-append front (mid ++ back),
          take-append front (mid ++ back),
          take-append mid back,
          e,
        )
        refl)

-- A write to the next `n` bytes of a buffer that is filled up to them.
pub on_slice-zeros :
    (front : List ℕ) (l n k : ℕ) (f : List ℕ → Checked (List ℕ)) {out : List ℕ}
    → length front ≡ l
    → f (replicate n 0) ≡ ok out
    → on_slice l n f (front ++ replicate (n + k) 0) ≡ ok (front ++ (out ++ replicate k 0))
on_slice-zeros front l n k f hl e =
    rw replicate-add
      (on_slice-middle front (replicate n 0) (replicate k 0) l n f hl (length-replicate n 0) e)
