-- ===== src/Socket/Reading.antt =====
-- What `ReadMsg` of client/event.go leaves alone, and how much it reads.
use sysc_wayland.Base.{
  ℕ, zero, suc, ◌-◌, ◌≤◌, ◌<◌, ◌/◌, ◌%◌, ◌||◌, not, ◌≡◌, ◌∙◌, refl, List, [], ◌∷◌, ◌++◌, Option,
  none, some, length, arith, if◌then◌else◌, ◌&&◌, ltb, ◌==◌, Bool-cases, Option-cases, inl, inr,
}
use sysc_wayland.World.{
  World, Recv, Error, body, header, is_deadline, sender_zero, invalid_size, unaligned_size,
  read_timeout,
}
use sysc_wayland.Wire.{word_at}
use sysc_wayland.Fatal.{close_fds, set_fatal}
use sysc_wayland.Ids.Table.{table, table-close_fds, table-set_fatal}
use sysc_wayland.Socket.Kernel.{Unix}
use sysc_wayland.Socket.{
  collect_fds, get_fds_from_oob, receive_oob, queue_fds, read_exact, take_fd, Message, error, frame,
  fail_read, read_body, read_frame, read_header, read_msg, WithError,
}

-- The input is not touched by the steps of the sticky error.
pub input-close_fds : (fds : List ℕ) (w : World) → (close_fds fds w).input ≡ w.input
unfolding close_fds
input-close_fds [] w = refl
input-close_fds (fd ∷ fds) w = input-close_fds fds (record w { closed = fd ∷ w.closed })

pub input-set_fatal : (e : Error) (w : World) → (set_fatal e w).1.input ≡ w.input
unfolding set_fatal
input-set_fatal e w = elim (Option-cases w.fatal_err) [
  | inr (old, dead) ↦ rw (dead, set_fatal) refl
  | inl alive ↦
      rw (alive, set_fatal)
        (input-close_fds w.pending_fds (record w { ctx = record (w.ctx) { fatal_err = some e } }))
]

-- What reading does: the objects stay, and no input is added.
pub record Reads {ℓ} {A : Type ℓ} (w : World) (r : A × World) : Type 0 where
  pub objects : table r.1 ≡ table w
  pub input : length r.1.input ≤ length w.input

fail_read-Reads : (e : Error) (w : World) → Reads w (fail_read e w)
unfolding fail_read
fail_read-Reads e w = record {
  objects = table-set_fatal e w;
  input = ground (arith, input-set_fatal e w);
}

take_fd-Reads : (w : World) → Reads w (take_fd w)
unfolding take_fd
take_fd-Reads w = go w.pending_fds refl
  where
    go :
        (fds : List ℕ) (e : w.pending_fds ≡ fds)
        → Reads {A = Option ℕ} w (elim fds [
          | [] ↦ (none, w)
          | fd ∷ rest ↦ (some fd, record w { ctx = record (w.ctx) { pending_fds = rest } })
        ])
    go [] e = record { objects = refl; input = omega arith }
    go (fd ∷ rest) e = record { objects = refl; input = omega arith }

-- One reading step after another.
Reads-then {ℓ κ} :
    {A : Type ℓ} {B : Type κ} (w : World) (r : A × World) (s : B × World)
    → Reads w r
    → Reads r.1 s
    → Reads w s
Reads-then w r s h k = record {
  objects = k.objects ∙ h.objects;
  input = ground (arith, h.input, k.input);
}

-- A message, and not an error, takes a read from the input.
unfoldable pub Shrinks : World → Message × World → Type 0
Shrinks w (error e, w') = Unit {0}
Shrinks w (frame sender opcode fd msg, w') = length w'.input < length w.input

module _ (unix : Unix) where
  open unix use {Scm, parse_scms, parse_rights, oob_space}

  table-collect_fds :
      (scms : List Scm) (ret : List ℕ) (w : World) → table (collect_fds unix scms ret w).1 ≡ table w
  unfolding collect_fds
  table-collect_fds [] ret w = refl
  table-collect_fds (scm ∷ scms) ret w =
      let fds = (parse_rights scm).0 in
      elim (Bool-cases (parse_rights scm).1) [
        | inl bad ↦ rw bad (table-close_fds fds (close_fds ret w) ∙ table-close_fds ret w)
        | inr good ↦ rw good (table-collect_fds scms (ret ++ fds) w)
      ]

  table-get_fds_from_oob :
      (oob : List ℕ) (w : World) → table (get_fds_from_oob unix oob w).1 ≡ table w
  unfolding get_fds_from_oob
  table-get_fds_from_oob oob w = elim (Bool-cases (ltb oob_space (length oob))) [
    | inl long ↦ rw long refl
    | inr short ↦ elim (Option-cases (parse_scms oob)) [
      | inl e ↦ rw (short, e) refl
      | inr (scms, e) ↦ rw (short, e) (table-collect_fds scms [] w)
    ]
  ]

  table-queue_fds : (r : WithError (List ℕ) × World) → table (queue_fds r).1 ≡ table r.1
  unfolding queue_fds
  table-queue_fds ((fds, some e), w) = refl
  table-queue_fds ((fds, none), w) = refl

  table-receive_oob : (oob : List ℕ) (w : World) → table (receive_oob unix oob w).1 ≡ table w
  unfolding receive_oob
  table-receive_oob [] w = refl
  table-receive_oob (c ∷ oob) w =
      table-queue_fds (get_fds_from_oob unix (c ∷ oob) w) ∙ table-get_fds_from_oob (c ∷ oob) w

  table-read_exact :
      (input : List Recv) (need : ℕ) (got : List ℕ) (w : World)
      → table (read_exact unix input need got w).1 ≡ table w
  unfolding read_exact
  table-read_exact input zero got w = refl
  table-read_exact [] (suc k) got w = refl
  table-read_exact (r ∷ rest) (suc k) got w =
      let w' = (receive_oob unix r.oob w).1 in
      ground (
        arith,
        table-receive_oob r.oob w,
        table-read_exact rest (suc k - length r.bytes) (got ++ r.bytes) w',
      )

  -- A read takes from the front of the input, and at least one piece unless it wants no byte.
  length-read_exact :
      (input : List Recv) (need : ℕ) (got : List ℕ) (w : World)
      → let r = read_exact unix input need got w in
        (length r.1.input ≤ length input)
        × (0 < need → r.0.1 ≡ none → length r.1.input < length input)
  unfolding read_exact
  length-read_exact input zero got w = (omega arith, λ h. absurd (omega arith))
  length-read_exact [] (suc k) got w = (omega arith, λ h e. cc)
  length-read_exact (r ∷ rest) (suc k) got w =
      let w' = (receive_oob unix r.oob w).1 in
      ground (arith, length-read_exact rest (suc k - length r.bytes) (got ++ r.bytes) w')

  read_exact-Reads : (need : ℕ) (w : World) → Reads w (read_exact unix w.input need [] w)
  read_exact-Reads need w = record {
    objects = table-read_exact w.input need [] w;
    input = (length-read_exact w.input need [] w).0;
  }

  read_body-Reads :
      (sender opcode size : ℕ) (w : World) → Reads w (read_body unix sender opcode size w)
  unfolding read_body
  read_body-Reads sender opcode size w =
      let r = read_exact unix w.input (size - 8) [] w in
      Reads-then w r _ (read_exact-Reads (size - 8) w)
        (elim r.0.1
          as (λ x. Reads {A = Message} r.1 (elim x [
            | some e ↦ fail_read (body e) r.1
            | none ↦ (frame sender opcode (take_fd r.1).0 r.0.0, (take_fd r.1).1)
          ])) [
            | none ↦ record {
              objects = (take_fd-Reads r.1).objects;
              input = (take_fd-Reads r.1).input;
            }
            | some e ↦ fail_read-Reads (body e) r.1
          ])

  read_frame-Reads : (sender word : ℕ) (w : World) → Reads w (read_frame unix sender word w)
  unfolding read_frame
  read_frame-Reads sender word w = elim (Bool-cases (sender == 0)) [
    | inl nobody ↦ rw nobody (fail_read-Reads sender_zero w)
    | inr set ↦
        let size = word / 65536 in
        elim (Bool-cases (ltb size 8 || ltb 65535 size)) [
          | inl bad ↦ rw (set, bad) (fail_read-Reads (invalid_size size) w)
          | inr good ↦ elim (Bool-cases (not (size % 4 == 0))) [
            | inl odd ↦ rw (set, good) (rw odd (fail_read-Reads (unaligned_size size) w))
            | inr whole ↦ rw (set, good) (rw whole (read_body-Reads sender (word % 65536) size w))
          ]
        ]
  ]

  Shrinks-fewer :
      (w w' : World) (r : Message × World)
      → length w'.input < length w.input
      → Reads w' r
      → Shrinks w r
  unfolding Shrinks
  Shrinks-fewer w w' (error e, v) less h = tt
  Shrinks-fewer w w' (frame sender opcode fd msg, v) less h = ground (arith, h.input)

  header_error-Reads :
      (bytes : List ℕ) (e : Error) (w : World)
      → let r =
          if length bytes == 0 && is_deadline e
          then (error (read_timeout e), w)
          else fail_read (header e) w in
        Reads w r
  header_error-Reads bytes e w = elim (Bool-cases (length bytes == 0 && is_deadline e)) [
    | inl late ↦ rw late (record { objects = refl; input = omega arith })
    | inr bad ↦ rw bad (fail_read-Reads (header e) w)
  ]

  pub read_header-Reads : (w : World) → Reads w (read_header unix w)
  unfolding read_header
  read_header-Reads w =
      let r = read_exact unix w.input 8 [] w in
      Reads-then w r _ (read_exact-Reads 8 w)
        (elim r.0.1
          as (λ x. Reads {A = Message} r.1 (elim x [
            | some e ↦
                if length r.0.0 == 0 && is_deadline e
                then (error (read_timeout e), r.1)
                else fail_read (header e) r.1
            | none ↦ read_frame unix (word_at r.0.0 0) (word_at r.0.0 4) r.1
          ])) [
            | none ↦ read_frame-Reads (word_at r.0.0 0) (word_at r.0.0 4) r.1
            | some e ↦ header_error-Reads r.0.0 e r.1
          ])

  header_error-Shrinks :
      (bytes : List ℕ) (e : Error) (v w : World)
      → Shrinks v (
          if length bytes == 0 && is_deadline e
          then (error (read_timeout e), w)
          else fail_read (header e) w)
  unfolding Shrinks fail_read
  header_error-Shrinks bytes e v w = elim (Bool-cases (length bytes == 0 && is_deadline e)) [
    | inl late ↦ rw late tt
    | inr bad ↦ rw bad tt
  ]

  pub read_header-Shrinks : (w : World) → Shrinks w (read_header unix w)
  unfolding read_header
  read_header-Shrinks w =
      let r = read_exact unix w.input 8 [] w in
      elim r.0.1
          as (λ x.
            r.0.1 ≡ x
            → Shrinks w (elim x [
              | some e ↦
                  if length r.0.0 == 0 && is_deadline e
                  then (error (read_timeout e), r.1)
                  else fail_read (header e) r.1
              | none ↦ read_frame unix (word_at r.0.0 0) (word_at r.0.0 4) r.1
            ])) [
              | none ↦ λ fine.
                  Shrinks-fewer w r.1 _ ((length-read_exact w.input 8 [] w).1 (omega arith) fine)
                    (read_frame-Reads (word_at r.0.0 0) (word_at r.0.0 4) r.1)
              | some e ↦ λ _. header_error-Shrinks r.0.0 e w r.1
            ]
        refl

  pub read_msg-Reads : (w : World) → Reads w (read_msg unix w)
  unfolding read_msg
  read_msg-Reads w =
      elim w.fatal_err
        as (λ x.
          Reads {A = Message} w (elim x [ some e ↦ (error e, w) | none ↦ read_header unix w ])) [
            | none ↦ read_header-Reads w
            | some e ↦ record { objects = refl; input = omega arith }
          ]

  pub read_msg-Shrinks : (w : World) → Shrinks w (read_msg unix w)
  unfolding read_msg Shrinks
  read_msg-Shrinks w =
      elim w.fatal_err
        as (λ x. Shrinks w (elim x [ some e ↦ (error e, w) | none ↦ read_header unix w ])) [
          | none ↦ read_header-Shrinks w
          | some e ↦ tt
        ]
