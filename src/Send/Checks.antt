-- ===== src/Send/Checks.antt =====
-- The checks of `WriteMsg` in client/request.go, and the sticky error that it leaves.
use sysc_wayland.Base.{
  ℕ, ◌+◌, ◌≡◌, ◌∙◌, ap, sym, refl, true, false, List, [], ◌++◌, none, some, leb, length,
  length-append, arith, Bool-cases, Option-cases, inl, inr,
}
use mathlib.Core.Path.{subst}
use mathlib.Core.List.{append-nil}
use sysc_wayland.World.{World, Error, frame_size}
use sysc_wayland.Wire.{le32, word_at, request, Arg, args_size, ok}
use sysc_wayland.Wire.Request.{
  request-encode_args, header_word, encode_args, length-encode_args, length-le32,
}
use sysc_wayland.Wire.RoundTrip.{word_at-le32, ok-injective}
use sysc_wayland.Fatal.{set_fatal}
use sysc_wayland.Socket.Descriptors.{close_fds_lem, set_fatal_lem}
use sysc_wayland.Send.{write_frame, write_msg, is_frame}
use sysc_wayland.Send.Beside.{write_frame_ctx}
use sysc_wayland.Send.Delivery.{Delivers, write_frame-Delivers}

module _ (id opcode : ℕ) (args : List Arg) where
  abbrev layout : List ℕ
  layout = le32 id ++ (le32 (header_word opcode args) ++ encode_args args)

  length-layout : length layout ≡ 8 + args_size args
  length-layout = omega (
    arith,
    length-append (le32 id) (le32 (header_word opcode args) ++ encode_args args),
    length-append (le32 (header_word opcode args)) (encode_args args),
    length-le32,
    length-encode_args args,
  )

  size_word : word_at layout 4 ≡ header_word opcode args
  size_word =
      word_at-le32 (le32 id) (encode_args args) 4 _ (length-le32 id)
        (unfold header_word in omega arith)

  layout-is_frame : is_frame layout ≡ leb (8 + args_size args) 65535
  unfolding is_frame header_word
  layout-is_frame = rw (length-layout, size_word) (ground (arith, length-encode_args args))

  -- `WriteMsg` takes a frame that generated code has built exactly if its length, header included,
  -- is at most 65535: such a frame is aligned, and its header states its length.
  pub request-is_frame :
      (b : List ℕ) → request id opcode args ≡ ok b → is_frame b ≡ leb (8 + args_size args) 65535
  request-is_frame b e =
      rw (ok-injective (sym e ∙ request-encode_args id opcode args)) layout-is_frame

-- `setFatal` keeps what a failed write says about the socket.
set_fatal-Delivers :
    (b oob : List ℕ) (e : Error) (w w' : World)
    → w'.fatal_err ≡ none
    → Delivers b oob w (some e, w')
    → Delivers b oob w (some e, (set_fatal e w').1)
set_fatal-Delivers b oob e w w' alive (f, g, split, sent, p) =
    let (_, _, out, out_oob) = set_fatal_lem e w' alive in
    (f, g, split, out ∙ sent, elim p [ inl q ↦ inl q | inr (q, r) ↦ inr (out ∙ q, out_oob ∙ r) ])

module _ (b oob : List ℕ) (w : World) where
  write_msg_refuses :
      w.fatal_err ≡ none
      → is_frame b ≡ false
      → write_msg b oob w ≡ (some (frame_size (length b)), w)
  unfolding write_msg
  write_msg_refuses alive bad = ground arith

  write_msg_sends :
      w.fatal_err ≡ none
      → is_frame b ≡ true
      → (write_frame b oob w).0 ≡ none
      → write_msg b oob w ≡ (none, (write_frame b oob w).1)
  unfolding write_msg
  write_msg_sends alive good e = ground arith

  write_msg_fails :
      (x : Error)
      → w.fatal_err ≡ none
      → is_frame b ≡ true
      → (write_frame b oob w).0 ≡ some x
      → write_msg b oob w
        ≡ (some (set_fatal x (write_frame b oob w).1).0, (set_fatal x (write_frame b oob w).1).1)
  unfolding write_msg
  write_msg_fails x alive good e = ground arith

-- What `WriteMsg` does while no error is sticky: a frame that fails the checks is refused and nothing
-- changes; any other is written, and an error of the write becomes the sticky one.
pub write_msg_lem :
    (b oob : List ℕ) (w : World)
    → w.fatal_err ≡ none
    → let (err, w') = write_msg b oob w in
      Delivers b oob w (err, w')
      × (is_frame b ≡ false → (err ≡ some (frame_size (length b))) × (w' ≡ w))
      × (is_frame b ≡ true → w'.fatal_err ≡ err)
write_msg_lem b oob w alive = elim (Bool-cases (is_frame b)) [
  | inr bad ↦
      rw (write_msg_refuses b oob w alive bad) (
        ([], b, refl, sym (append-nil w.output), inr (refl, refl)),
        (λ _. (refl, refl)),
        λ good. cc,
      )
  | inl good ↦ elim (Option-cases (write_frame b oob w).0) [
    | inl e ↦ rw (write_msg_sends b oob w alive good e) (
      subst (Delivers b oob w) (ap (λ o. (o, (write_frame b oob w).1)) e)
          (write_frame-Delivers b oob w),
      (λ bad. cc),
      λ _. ap (λ c. c.fatal_err) (write_frame_ctx b oob w) ∙ alive,
    )
    | inr (x, e) ↦
        let w' = (write_frame b oob w).1 in
        let alive' : w'.fatal_err ≡ none =
          ap (λ c. c.fatal_err) (write_frame_ctx b oob w) ∙ alive in
        let (same, stuck, _, _) = set_fatal_lem x w' alive' in
        let sent : Delivers b oob w (some x, w') =
          subst (Delivers b oob w) (ap (λ o. (o, w')) e) (write_frame-Delivers b oob w) in
        rw (write_msg_fails b oob w x alive good e) (
          rw same (set_fatal-Delivers b oob x w w' alive' sent),
          (λ bad. cc),
          λ _. stuck ∙ sym (ap some same),
        )
  ]
]

set_fatal_objects : (e : Error) (w : World) → (set_fatal e w).1.objects ≡ w.objects
unfolding set_fatal
set_fatal_objects e w = ground (
  arith,
  close_fds_lem 0 w.pending_fds (record w { ctx = record (w.ctx) { fatal_err = some e } }),
)

-- No write touches the table of objects.
pub objects-write_msg : (b oob : List ℕ) (w : World) → (write_msg b oob w).1.objects ≡ w.objects
unfolding write_msg
objects-write_msg b oob w = elim (Option-cases w.fatal_err) [
  | inr (e, dead) ↦ rw dead refl
  | inl alive ↦ elim (Bool-cases (is_frame b)) [
    | inr bad ↦ rw (write_msg_refuses b oob w alive bad) refl
    | inl good ↦ elim (Option-cases (write_frame b oob w).0) [
      | inl e ↦
          rw (write_msg_sends b oob w alive good e) (ap (λ c. c.objects) (write_frame_ctx b oob w))
      | inr (x, e) ↦
          rw (write_msg_fails b oob w x alive good e)
            (set_fatal_objects x _ ∙ ap (λ c. c.objects) (write_frame_ctx b oob w))
    ]
  ]
]
