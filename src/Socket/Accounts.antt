-- ===== src/Socket/Accounts.antt =====
-- What `ReadMsg` of client/event.go does with the descriptors, on all of its paths.
use sysc_wayland.Base.{
  ℕ, ◌+◌, ◌-◌, ◌/◌, ◌%◌, ◌≡◌, ◌∙◌, List, [], ◌∷◌, Option, none, some, copies, arith, Option-cases,
  inl, inr,
}
use sysc_wayland.World.{World, Error, body, header, sender_zero, invalid_size, unaligned_size}
use sysc_wayland.Wire.{word_at}
use sysc_wayland.Socket.Kernel.{Unix}
use sysc_wayland.Socket.{
  read_exact, take_fd, Message, error, frame, fail_read, read_body, read_frame, read_header,
  read_msg,
}
use sysc_wayland.Socket.Descriptors.{held, input_fds, held-set_fatal, held-read_exact}

-- A descriptor as a list of one or none.
abbrev pub opt_fd : Option ℕ → List ℕ
opt_fd none = []
opt_fd (some fd) = fd ∷ []

abbrev pub message_fds : Message → List ℕ
message_fds (error e) = []
message_fds (frame sender opcode fd bytes) = opt_fd fd

held-take_fd :
    (a : ℕ) (w : World)
    → (held a (take_fd w).1 + copies a (opt_fd (take_fd w).0) ≡ held a w)
      × ((take_fd w).1.input ≡ w.input)
unfolding take_fd held
held-take_fd a w = ground arith

module _ (unix : Unix) where
  -- How often a descriptor is held or still to be received.
  unfoldable pub total : ℕ → World → ℕ
  unfolding held
  total a w = held a w + copies a (input_fds unix w.input)

  -- A message accounts for every descriptor, counting the one that comes with it.
  abbrev Accounts : ℕ → World → Message × World → Type 0
  Accounts a w (m, w') = total a w' + copies a (message_fds m) ≡ total a w

  fail_read-Accounts : (a : ℕ) (e : Error) (w : World) → Accounts a w (fail_read e w)
  unfolding fail_read total
  fail_read-Accounts a e w = ground (arith, held-set_fatal a e w)

  read_exact-total :
      (a need : ℕ) (w : World) → total a (read_exact unix w.input need [] w).1 ≡ total a w
  unfolding total
  read_exact-total a need w = held-read_exact unix a w.input need [] w

  read_body-Accounts :
      (a sender opcode size : ℕ) (w : World) → Accounts a w (read_body unix sender opcode size w)
  unfolding read_body total
  read_body-Accounts a sender opcode size w =
      let r = read_exact unix w.input (size - 8) [] w in
      elim (Option-cases r.0.1) [
        | inl e ↦
            rw (e, read_body) (ground (arith, held-take_fd a r.1, read_exact-total a (size - 8) w))
        | inr (x, e) ↦
            rw (e, read_body) (fail_read-Accounts a (body x) r.1 ∙ read_exact-total a (size - 8) w)
      ]

  read_frame-Accounts :
      (a sender word : ℕ) (w : World) → Accounts a w (read_frame unix sender word w)
  unfolding read_frame
  read_frame-Accounts a sender word w = ground (
    arith,
    fail_read-Accounts a sender_zero w,
    fail_read-Accounts a (invalid_size (word / 65536)) w,
    fail_read-Accounts a (unaligned_size (word / 65536)) w,
    read_body-Accounts a sender (word % 65536) (word / 65536) w,
  )

  read_header-Accounts : (a : ℕ) (w : World) → Accounts a w (read_header unix w)
  unfolding read_header
  read_header-Accounts a w =
      let r = read_exact unix w.input 8 [] w in
      elim (Option-cases r.0.1) [
        | inl e ↦
            rw (e, read_header)
              (read_frame-Accounts a (word_at r.0.0 0) (word_at r.0.0 4) r.1
                ∙ read_exact-total a 8 w)
        | inr (x, e) ↦
            rw (e, read_header)
              (ground (arith, fail_read-Accounts a (header x) r.1, read_exact-total a 8 w))
      ]

  -- However `ReadMsg` ends, no descriptor is lost and none is made up: each one that was pending
  -- or arrives, as far as the control message parser reports it, is returned with the message, is
  -- pending, or has been closed.
  pub read_msg-Accounts :
      (a : ℕ) (w : World)
      → let (m, w') = read_msg unix w in total a w' + copies a (message_fds m) ≡ total a w
  unfolding read_msg total
  read_msg-Accounts a w = elim (Option-cases w.fatal_err) [
    | inl e ↦ rw (e, read_msg) (read_header-Accounts a w)
    | inr (x, e) ↦ rw (e, read_msg) (omega arith)
  ]
