-- ===== src/Send/Delivery.antt =====
-- What reaches the socket: `writeFrame` and `WriteMsg` of client/request.go.
use sysc_wayland.Base.{
  ℕ, zero, suc, ◌≤◌, ◌≡◌, ◌∙◌, ap, sym, refl, Bool, true, false, ◌||◌, List, [], ◌∷◌, ◌++◌, Option,
  none, some, ltb, ◌==◌, if◌then◌else◌, length, take, drop, arith, Bool-cases, Option-cases, inl,
  inr, take-append-drop, ◌⊎◌,
}
use mathlib.Core.Path.{subst}
use mathlib.Core.List.{append_assoc, append-nil}
use sysc_wayland.World.{World, Sent, Error, partial_frame, no_progress, io}
use sysc_wayland.Send.{write_rest, write_accepted, write_first, write_frame, epipe}

-- `errors.Is(err, ErrPartialFrame)`
pub is_partial : Error → Bool
is_partial (partial_frame e) = true
is_partial _ = false

-- A write either sends all of the bytes and all of the control bytes; or it fails, the socket has
-- accepted a prefix of the bytes, and unless the error says `ErrPartialFrame` it has accepted nothing.
abbrev pub Delivers : List ℕ → List ℕ → World → Option Error × World → Type 0
Delivers bytes oob w (none, w') =
    (w'.output ≡ w.output ++ bytes) × (w'.output_oob ≡ w.output_oob ++ oob)
Delivers bytes oob w (some e, w') =
    (front : List ℕ) × (back : List ℕ) × (bytes ≡ front ++ back)
    × (w'.output ≡ w.output ++ front)
    × ((is_partial e ≡ true) ⊎ ((w'.output ≡ w.output) × (w'.output_oob ≡ w.output_oob)))

-- The same for the rest of a frame that has begun.
abbrev Continues : List ℕ → World → Option Error × World → Type 0
Continues rest w (none, w') = (w'.output ≡ w.output ++ rest) × (w'.output_oob ≡ w.output_oob)
Continues rest w (some e, w') =
    (front : List ℕ) × (back : List ℕ) × (rest ≡ front ++ back)
    × (w'.output ≡ w.output ++ front)
    × (is_partial e ≡ true)

-- A step that has sent `front`, and then goes on with the rest.
Continues-step :
    (front back : List ℕ) (w w' : World) (r : Option Error × World)
    → w'.output ≡ w.output ++ front
    → w'.output_oob ≡ w.output_oob
    → Continues back w' r
    → Continues (front ++ back) w r
Continues-step front back w w' (none, w'') e o (c, d) =
    (c ∙ rw (e, append_assoc w.output front back) refl, d ∙ o)
Continues-step front back w w' (some x, w'') e o (f, b, split, c, p) = (
  front ++ f,
  b,
  rw (split, append_assoc front f b) refl,
  c ∙ rw (e, append_assoc w.output front f) refl,
  p,
)

abbrev after : List Sent → ℕ → List ℕ → ℕ → World → World
after script b rest n w = record w { writes = script; output = w.output ++ take n (b ∷ rest) }

write_rest_step :
    (s : Sent) (script : List Sent) (b : ℕ) (rest : List ℕ) (n : ℕ) (w : World)
    → s.wrote ≡ some n
    → ltb (length (b ∷ rest)) n ≡ false
    → s.write_err ≡ none
    → (n == 0) ≡ false
    → write_rest (s ∷ script) (b ∷ rest) w
      ≡ write_rest script (drop n (b ∷ rest)) (after script b rest n w)
unfolding write_rest
write_rest_step s script b rest n w e fits fine more =
    rw (e, write_rest) (rw (fits, fine, more) refl)

write_rest-Continues :
    (script : List Sent) (rest : List ℕ) (w : World) → Continues rest w (write_rest script rest w)
unfolding write_rest is_partial
write_rest-Continues script [] w = (sym (append-nil w.output), refl)
write_rest-Continues [] (b ∷ rest) w = ([], b ∷ rest, refl, sym (append-nil w.output), refl)
write_rest-Continues (s ∷ script) (b ∷ rest) w = elim (Option-cases s.wrote) [
  | inl e ↦ rw (e, write_rest) ([], b ∷ rest, refl, sym (append-nil w.output), refl)
  | inr (n, e) ↦ elim (Bool-cases (ltb (length (b ∷ rest)) n)) [
    | inl big ↦ rw (e, write_rest) (rw big ([], b ∷ rest, refl, sym (append-nil w.output), refl))
    | inr fits ↦ elim (Option-cases s.write_err) [
      | inr (x, err) ↦
          rw (e, write_rest)
            (rw (fits, err)
              (take n (b ∷ rest), drop n (b ∷ rest), sym (take-append-drop n _), refl, refl))
      | inl fine ↦ elim (Bool-cases (n == 0)) [
        | inl stuck ↦
            rw (e, write_rest)
              (rw (fits, fine, stuck)
                (take n (b ∷ rest), drop n (b ∷ rest), sym (take-append-drop n _), refl, refl))
        | inr more ↦ rw (write_rest_step s script b rest n w e fits fine more) (
            subst
              (λ l. Continues l w (write_rest script (drop n (b ∷ rest)) (after script b rest n w)))
              (take-append-drop n (b ∷ rest))
              (Continues-step (take n (b ∷ rest)) (drop n (b ∷ rest)) w (after script b rest n w) _
                refl refl
                (write_rest-Continues script (drop n (b ∷ rest)) (after script b rest n w))))
      ]
    ]
  ]
]

-- What the rest delivers, the first write included.
first-Continues :
    (front back oob : List ℕ) (w w' : World) (r : Option Error × World)
    → w'.output ≡ w.output ++ front
    → w'.output_oob ≡ w.output_oob ++ oob
    → Continues back w' r
    → Delivers (front ++ back) oob w r
first-Continues front back oob w w' (none, w'') e o (c, d) =
    (c ∙ rw (e, append_assoc w.output front back) refl, d ∙ o)
first-Continues front back oob w w' (some x, w'') e o (f, b, split, c, p) = (
  front ++ f,
  b,
  rw (split, append_assoc front f b) refl,
  c ∙ rw (e, append_assoc w.output front f) refl,
  inl p,
)

abbrev first : ℕ → ℕ → List ℕ → List ℕ → World → World
first n m bytes oob w = record w {
  output = w.output ++ take n bytes;
  output_oob = w.output_oob ++ take m oob;
}

take_all : (m : ℕ) (xs : List ℕ) → (m == length xs) ≡ true → take m xs ≡ xs
take_all zero [] h = refl
take_all zero (x ∷ xs) h = absurd (ground arith)
take_all (suc m) [] h = refl
take_all (suc m) (x ∷ xs) h = ap (◌∷◌ x) (take_all m xs (ground arith))

-- A first write that fails says `ErrPartialFrame`, or it has accepted nothing.
partial_or_nothing :
    (n m : ℕ) (x : Error) (bytes oob : List ℕ) (w : World)
    → (is_partial (if ltb 0 n || ltb 0 m then partial_frame x else x) ≡ true)
      ⊎ ((w.output ++ take n bytes ≡ w.output) × (w.output_oob ++ take m oob ≡ w.output_oob))
unfolding is_partial
partial_or_nothing zero zero x bytes oob w = inr (append-nil w.output, append-nil w.output_oob)
partial_or_nothing zero (suc m) x bytes oob w = inl (ground arith)
partial_or_nothing (suc n) m x bytes oob w = inl (ground arith)

pub rebase :
    (bytes oob : List ℕ) (w v : World) (r : Option Error × World)
    → v.output ≡ w.output
    → v.output_oob ≡ w.output_oob
    → Delivers bytes oob v r
    → Delivers bytes oob w r
rebase bytes oob w v (none, w') e o (c, d) = (rw (← e) c, rw (← o) d)
rebase bytes oob w v (some x, w') e o (f, b, split, c, inl p) = (f, b, split, rw (← e) c, inl p)
rebase bytes oob w v (some x, w') e o (f, b, split, c, inr (p, q)) =
    (f, b, split, rw (← e) c, inr (p ∙ e, q ∙ o))

write_accepted-Delivers :
    (s : Sent) (n m : ℕ) (bytes oob : List ℕ) (w : World)
    → n ≤ length bytes
    → m ≤ length oob
    → Delivers bytes oob w (write_accepted s n m bytes oob w)
unfolding write_accepted is_partial
write_accepted-Delivers s n m bytes oob w hn hm = elim (Bool-cases (m == length oob)) [
  | inr short ↦
      rw short (take n bytes, drop n bytes, sym (take-append-drop n bytes), refl, inl refl)
  | inl full ↦ elim (Option-cases s.write_err) [
    | inr (x, err) ↦
        rw (full, err)
          (
            take n bytes,
            drop n bytes,
            sym (take-append-drop n bytes),
            refl,
            partial_or_nothing n m x bytes oob w,
          )
    | inl fine ↦ elim (Bool-cases (n == 0)) [
      | inl stuck ↦
          rw (full, fine, stuck)
            (
              take n bytes,
              drop n bytes,
              sym (take-append-drop n bytes),
              refl,
              partial_or_nothing n m no_progress bytes oob w,
            )
      | inr more ↦
          rw (full, fine, more)
            (subst
              (λ l. Delivers l oob w (write_rest w.writes (drop n bytes) (first n m bytes oob w)))
              (take-append-drop n bytes)
              (first-Continues (take n bytes) (drop n bytes) oob w (first n m bytes oob w) _ refl
                (ap (◌++◌ w.output_oob) (take_all m oob full))
                (write_rest-Continues w.writes (drop n bytes) (first n m bytes oob w))))
    ]
  ]
]

refused :
    (bytes oob : List ℕ) (x : Error) (w : World) → Delivers bytes oob w (some (partial_frame x), w)
unfolding is_partial
refused bytes oob x w = ([], bytes, refl, sym (append-nil w.output), inl refl)

write_first-Delivers :
    (s : Sent) (bytes oob : List ℕ) (w : World) → Delivers bytes oob w (write_first s bytes oob w)
unfolding write_first
write_first-Delivers s bytes oob w = elim (Option-cases s.wrote) [
  | inl e ↦ rw (e, write_first) (refused bytes oob _ w)
  | inr (n, e) ↦ elim (Bool-cases (ltb (length bytes) n)) [
    | inl big ↦ rw (e, write_first) (rw big (refused bytes oob _ w))
    | inr fits ↦ elim (Option-cases s.wrote_oob) [
      | inl f ↦ rw (e, write_first) (rw (fits, f) (refused bytes oob _ w))
      | inr (m, f) ↦ elim (Bool-cases (ltb (length oob) m)) [
        | inl more ↦ rw (e, write_first) (rw (fits, f, more) (refused bytes oob _ w))
        | inr less ↦
            rw (e, write_first)
              (rw (fits, f, less)
                (write_accepted-Delivers s n m bytes oob w (ground arith) (ground arith)))
      ]
    ]
  ]
]

abbrev pub gone : Sent
gone = record { wrote = some 0; wrote_oob = some 0; write_err = some (io epipe) }

pub write_frame-gone :
    (bytes oob : List ℕ) (w : World)
    → w.writes ≡ []
    → write_frame bytes oob w ≡ write_first gone bytes oob w
unfolding write_frame
write_frame-gone bytes oob w e = ground arith

pub write_frame_next :
    (bytes oob : List ℕ) (w : World) (s : Sent) (script : List Sent)
    → w.writes ≡ s ∷ script
    → write_frame bytes oob w ≡ write_first s bytes oob (record w { writes = script })
unfolding write_frame
write_frame_next bytes oob w s script e = ground arith

write_frame_from :
    (bytes oob : List ℕ) (w : World) (script : List Sent)
    → w.writes ≡ script
    → Delivers bytes oob w (write_frame bytes oob w)
write_frame_from bytes oob w [] e =
    rw (write_frame-gone bytes oob w e) (write_first-Delivers gone bytes oob w)
write_frame_from bytes oob w (s ∷ script) e = rw (write_frame_next bytes oob w s script e) (
    rebase bytes oob w (record w { writes = script })
      (write_first s bytes oob (record w { writes = script })) refl refl
      (write_first-Delivers s bytes oob (record w { writes = script })))

-- However the first write and the plain writes go, `writeFrame` returns nil only if the socket has
-- taken the frame and its control data whole. On an error the socket has taken a prefix of the
-- frame, and nothing at all unless the error says `ErrPartialFrame`.
pub write_frame-Delivers :
    (bytes oob : List ℕ) (w : World) → Delivers bytes oob w (write_frame bytes oob w)
write_frame-Delivers bytes oob w = write_frame_from bytes oob w w.writes refl
