-- ===== src/Send/Beside.antt =====
-- The parts of the state that `writeFrame` and `WriteMsg` of client/request.go leave alone.
use sysc_wayland.Base.{
  ℕ, ◌≡◌, ◌∙◌, ap, refl, not, List, [], ◌∷◌, ◌++◌, Option, none, some, ltb, ◌==◌, take, drop,
  length, if◌then◌else◌, Bool-cases, Option-cases, inl, inr,
}
use sysc_wayland.World.{World, Context, Recv, Proxy, Sent, Error, frame_size}
use sysc_wayland.Fatal.{set_fatal}
use sysc_wayland.Socket.Reading.{input-set_fatal}
use sysc_wayland.Send.{write_rest, write_accepted, write_first, write_frame, write_msg, is_frame}
use sysc_wayland.Send.Delivery.{gone, write_frame-gone, write_frame_next}

-- What no write touches.
abbrev pub beside : World → Context × List Recv × (ℕ → Proxy)
beside w = (w.ctx, w.input, w.heap)

beside-write_rest :
    (script : List Sent) (rest : List ℕ) (w : World)
    → beside (write_rest script rest w).1 ≡ beside w
unfolding write_rest
beside-write_rest script [] w = refl
beside-write_rest [] (b ∷ rest) w = refl
beside-write_rest (s ∷ script) (b ∷ rest) w = elim (Option-cases s.wrote) [
  | inl e ↦ rw (e, write_rest) refl
  | inr (n, e) ↦ elim (Bool-cases (ltb (length (b ∷ rest)) n)) [
    | inl big ↦ rw (e, write_rest) (rw big refl)
    | inr fits ↦ elim (Option-cases s.write_err) [
      | inr (x, err) ↦ rw (e, write_rest) (rw (fits, err) refl)
      | inl fine ↦ elim (Bool-cases (n == 0)) [
        | inl stuck ↦ rw (e, write_rest) (rw (fits, fine, stuck) refl)
        | inr more ↦
            rw (e, write_rest)
              (rw (fits, fine, more)
                (beside-write_rest script (drop n (b ∷ rest))
                  (record w { writes = script; output = w.output ++ take n (b ∷ rest) })))
      ]
    ]
  ]
]

beside-write_accepted :
    (s : Sent) (n m : ℕ) (bytes oob : List ℕ) (w : World)
    → beside (write_accepted s n m bytes oob w).1 ≡ beside w
unfolding write_accepted
beside-write_accepted s n m bytes oob w = elim (Bool-cases (m == length oob)) [
  | inr short ↦ rw short refl
  | inl full ↦ elim (Option-cases s.write_err) [
    | inr (x, err) ↦ rw (full, err) refl
    | inl fine ↦ elim (Bool-cases (n == 0)) [
      | inl stuck ↦ rw (full, fine, stuck) refl
      | inr more ↦ rw (full, fine, more) (beside-write_rest w.writes (drop n bytes) _)
    ]
  ]
]

beside-write_first :
    (s : Sent) (bytes oob : List ℕ) (w : World) → beside (write_first s bytes oob w).1 ≡ beside w
unfolding write_first
beside-write_first s bytes oob w = elim (Option-cases s.wrote) [
  | inl e ↦ rw (e, write_first) refl
  | inr (n, e) ↦ elim (Bool-cases (ltb (length bytes) n)) [
    | inl big ↦ rw (e, write_first) (rw big refl)
    | inr fits ↦ elim (Option-cases s.wrote_oob) [
      | inl f ↦ rw (e, write_first) (rw (fits, f) refl)
      | inr (m, f) ↦ elim (Bool-cases (ltb (length oob) m)) [
        | inl more ↦ rw (e, write_first) (rw (fits, f, more) refl)
        | inr less ↦
            rw (e, write_first) (rw (fits, f, less) (beside-write_accepted s n m bytes oob w))
      ]
    ]
  ]
]

beside_from-write_frame :
    (bytes oob : List ℕ) (w : World) (script : List Sent)
    → w.writes ≡ script
    → beside (write_frame bytes oob w).1 ≡ beside w
beside_from-write_frame bytes oob w [] e =
    rw (write_frame-gone bytes oob w e) (beside-write_first gone bytes oob w)
beside_from-write_frame bytes oob w (s ∷ script) e =
    rw (write_frame_next bytes oob w s script e)
      (beside-write_first s bytes oob (record w { writes = script }))

pub beside-write_frame :
    (bytes oob : List ℕ) (w : World) → beside (write_frame bytes oob w).1 ≡ beside w
beside-write_frame bytes oob w = beside_from-write_frame bytes oob w w.writes refl

pub write_frame_ctx : (bytes oob : List ℕ) (w : World) → (write_frame bytes oob w).1.ctx ≡ w.ctx
write_frame_ctx bytes oob w = ap (λ t. t.0) (beside-write_frame bytes oob w)

pub input-write_msg : (b oob : List ℕ) (w : World) → (write_msg b oob w).1.input ≡ w.input
unfolding write_msg
input-write_msg b oob w =
    let r = write_frame b oob w in
    let kept : r.1.input ≡ w.input = ap (λ t. t.1) (beside-write_frame b oob w) in
    elim w.fatal_err
      as (λ x.
        (elim x as (λ _. Option Error × World) [
          | some e ↦ (some e, w)
          | none ↦ if not (is_frame b) then (some (frame_size (length b)), w) else elim r.0 [
            | none ↦ (none, r.1)
            | some e ↦ (some (set_fatal e r.1).0, (set_fatal e r.1).1)
          ]
        ]).1.input
        ≡ w.input) [
          | some e ↦ refl
          | none ↦ elim (Bool-cases (is_frame b)) [
            | inr bad ↦ rw bad refl
            | inl good ↦ elim (Option-cases r.0) [
              | inl e ↦ rw (good, e) kept
              | inr (e, f) ↦ rw (good, f) (input-set_fatal e r.1 ∙ kept)
            ]
          ]
        ]
