-- ===== src/Socket.antt =====
-- Reading frames: `getFdsFromOob`, `readExactWith`, `takeFD` and `ReadMsg` of client/event.go.
pub mod Kernel
pub mod Frames
pub mod Transfer
pub mod Descriptors
pub mod Accounts
pub mod Reading
use sysc_wayland.Base.{
  ℕ, zero, suc, ◌+◌, ◌-◌, ◌*◌, ◌/◌, ◌%◌, Bool, true, false, not, ◌&&◌, ◌||◌, List, [], ◌∷◌, ◌++◌,
  Option, none, some, ltb, leb, ◌==◌, if◌then◌else◌, length, take, drop,
}
use sysc_wayland.World.{
  World, Recv, Error, eof, unexpected_eof, read_timeout, header, body, sender_zero, invalid_size,
  unaligned_size, truncated_message, overlong_read, oob_count, bad_control_message, bad_unix_rights,
  is_deadline, M, Outcome, done, panicked, pure, ◌>>=◌,
}
use sysc_wayland.Wire.{word_at}
use sysc_wayland.Fatal.{close_fds, set_fatal}
use Kernel.{Unix}

-- `errors.Is(err, io.EOF)`
pub is_eof : Error → Bool
is_eof eof = true
is_eof _ = false

-- A Go pair `(value, err)`.
abbrev pub WithError {ℓ} : Type ℓ → Type ℓ
WithError A = A × Option Error

-- What `ReadMsg` returns: an error, or the sender's ID, the opcode, the descriptor and the body.
pub data Message : Type 0 where
  error : Error → Message
  frame : ℕ → ℕ → Option ℕ → List ℕ → Message

-- The closure `fail` of `ReadMsg`.
unfoldable pub fail_read : Error → World → Message × World
fail_read err w = let (e, w') = set_fatal err w in (error e, w')

unfoldable pub take_fd : World → Option ℕ × World
take_fd w = elim w.pending_fds [
  | [] ↦ (none, w)
  | fd ∷ rest ↦ (some fd, record w { ctx = record (w.ctx) { pending_fds = rest } })
]

-- `*fds = append(*fds, received...)`, unless there is an error.
pub queue_fds : WithError (List ℕ) × World → Option Error × World
queue_fds ((fds, some e), w) = (some e, w)
queue_fds ((fds, none), w) =
    (none, record w { ctx = record (w.ctx) { pending_fds = w.pending_fds ++ fds } })

module _ (unix : Unix) where
  open unix use {Scm, parse_scms, parse_rights, oob_space}

  -- The loop of `getFdsFromOob`, with `fdsRet` so far.
  pub collect_fds : List Scm → List ℕ → World → WithError (List ℕ) × World
  collect_fds [] ret w = ((ret, none), w)
  collect_fds (scm ∷ scms) ret w =
      let (fds, failed) = parse_rights scm in
      let more = collect_fds scms (ret ++ fds) w in
      if failed then (([], some bad_unix_rights), close_fds fds (close_fds ret w)) else more

  pub get_fds_from_oob : List ℕ → World → WithError (List ℕ) × World
  get_fds_from_oob oob w =
      if ltb oob_space (length oob)
      then (([], some (oob_count (length oob))), w)
      else elim (parse_scms oob) [
        | none ↦ (([], some bad_control_message), w)
        | some scms ↦ collect_fds scms [] w
      ]

  -- The control data of one read: its error, or the descriptors added to `pendingFDs`.
  unfoldable pub receive_oob : List ℕ → World → Option Error × World
  receive_oob [] w = (none, w)
  receive_oob (c ∷ oob) w = queue_fds (get_fds_from_oob (c ∷ oob) w)

  -- `readExactWith`: `need` is `len(dst)`, and `got` the bytes consumed so far. The list is what the
  -- socket still gives; behind it every read gives no byte and `io.EOF`.
  unfoldable pub read_exact : List Recv → ℕ → List ℕ → World → WithError (List ℕ) × World
  read_exact input zero got w = ((got, none), record w { input = input })
  read_exact [] (suc k) got w = ((got, some unexpected_eof), record w { input = [] })
  read_exact (r ∷ rest) (suc k) got w =
      let (oob_err, w') = receive_oob r.oob w in
      let n = length r.bytes in
      let more = read_exact rest (suc k - n) (got ++ r.bytes) w' in
      let w'' = record w' { input = rest } in
      elim oob_err [
        | some e ↦ ((got, some e), w'')
        | none ↦
            if r.truncated
            then ((got, some truncated_message), w'')
            else if ltb (suc k) n
            then ((got, some (overlong_read n (suc k))), w'')
            else elim r.read_err [
              | some e ↦
                  if suc k - n == 0
                  then ((got ++ r.bytes, none), w'')
                  else if is_eof e
                  then ((got ++ r.bytes, some unexpected_eof), w'')
                  else ((got ++ r.bytes, some e), w'')
              | none ↦ if n == 0 then ((got ++ r.bytes, some unexpected_eof), w'') else more
            ]
      ]

  -- `ReadMsg` behind the header: the body of `size - 8` bytes, and a pending descriptor.
  unfoldable pub read_body : ℕ → ℕ → ℕ → World → Message × World
  read_body sender opcode size w =
      let ((msg, err), w') = read_exact w.input (size - 8) [] w in
      elim err [
        | some e ↦ fail_read (body e) w'
        | none ↦ let (fd, w'') = take_fd w' in (frame sender opcode fd msg, w'')
      ]

  -- `ReadMsg` once the two words of the header are known, with its checks.
  unfoldable pub read_frame : ℕ → ℕ → World → Message × World
  read_frame sender opcode_and_size w =
      let opcode = opcode_and_size % 65536 in
      let size = opcode_and_size / 65536 in
      if sender == 0
      then fail_read sender_zero w
      else if ltb size 8 || ltb 65535 size
      then fail_read (invalid_size size) w
      else if not (size % 4 == 0)
      then fail_read (unaligned_size size) w
      else read_body sender opcode size w

  unfoldable pub read_header : World → Message × World
  read_header w =
      let ((bytes, err), w') = read_exact w.input 8 [] w in
      elim err [
        | some e ↦
            if length bytes == 0 && is_deadline e
            then (error (read_timeout e), w')
            else fail_read (header e) w'
        | none ↦ read_frame (word_at bytes 0) (word_at bytes 4) w'
      ]

  unfoldable pub read_msg : World → Message × World
  read_msg w = elim w.fatal_err [ some e ↦ (error e, w) | none ↦ read_header w ]
