-- ===== src/Socket/Transfer.antt =====
-- From a request of one peer to the message of the other: client/request.go and client/event.go.
use sysc_wayland.Base.{
  ℕ, ◌+◌, ◌-◌, ◌*◌, ◌/◌, ◌%◌, ◌^◌, ◌≤◌, ◌<◌, ◌≡◌, ◌≢◌, ◌∙◌, sym, refl, List, [], ◌∷◌, ◌++◌, none,
  length, length-append, arith, All,
}
use mathlib.Core.List.{append_assoc, append-nil}
use sysc_wayland.World.{World, Recv}
use sysc_wayland.Wire.{le32, ok, Arg, request, args_size}
use sysc_wayland.Wire.Request.{
  encode_args, request-encode_args, header_word, length-encode_args, length-le32,
}
use sysc_wayland.Wire.RoundTrip.{word_at-le32, ok-injective}
use sysc_wayland.Wire.{word_at}
use sysc_wayland.Socket.Kernel.{Unix}
use sysc_wayland.Socket.{take_fd, frame, read_body, read_frame, read_header, read_msg}
use sysc_wayland.Socket.Frames.{bytes_of, IsPiece, arrive, read_exact-pieces}

append_split :
    (xs ys us vs : List ℕ) → length xs ≡ length ys → xs ++ us ≡ ys ++ vs → (xs ≡ ys) × (us ≡ vs)
append_split [] [] us vs h e = (refl, e)
append_split [] (y ∷ ys) us vs h e = absurd (omega arith)
append_split (x ∷ xs) [] us vs h e = absurd (omega arith)
append_split (x ∷ xs) (y ∷ ys) us vs h e =
    let (p, q) = append_split xs ys us vs (omega arith) (cc) in (cc, q)

module _ (unix : Unix) where
  read_body-pieces :
      (bs rest : List Recv) (sender opcode size : ℕ) (w : World)
      → All (IsPiece unix) bs
      → w.input ≡ bs ++ rest
      → length (bytes_of bs) ≡ size - 8
      → let w' = arrive unix bs rest w in
        read_body unix sender opcode size w
        ≡ (frame sender opcode (take_fd w').0 (bytes_of bs), (take_fd w').1)
  unfolding read_body
  read_body-pieces bs rest sender opcode size w good input size_eq =
      ground (arith, read_exact-pieces unix bs rest [] w good)

  -- The two words of a header that passes the checks of `ReadMsg`.
  read_frame-valid :
      (sender opcode size : ℕ) (w : World)
      → sender ≢ 0
      → opcode < 65536
      → 8 ≤ size
      → size ≤ 65535
      → size % 4 ≡ 0
      → read_frame unix sender (size * 65536 + opcode) w ≡ read_body unix sender opcode size w
  unfolding read_frame
  read_frame-valid sender opcode size w ne small low high aligned =
      let split_low : (size * 65536 + opcode) % 65536 ≡ opcode = omega arith in
      let split_high : (size * 65536 + opcode) / 65536 ≡ size = omega arith in
      rw (split_low, split_high) (ground arith)

  read_header-pieces :
      (hs rest : List Recv) (sender word : ℕ) (w : World)
      → All (IsPiece unix) hs
      → w.input ≡ hs ++ rest
      → bytes_of hs ≡ le32 sender ++ le32 word
      → sender < 2 ^ 32
      → word < 2 ^ 32
      → read_header unix w ≡ read_frame unix sender word (arrive unix hs rest w)
  unfolding read_header
  read_header-pieces hs rest sender word w good input bytes small_sender small_word =
      ground (arith, eight, read_exact-pieces unix hs rest [] w good, first, second)
    where
      eight : length (bytes_of hs) ≡ 8
      eight = rw bytes (omega (arith, length-append (le32 sender) (le32 word), length-le32))

      first : word_at (bytes_of hs) 0 ≡ sender
      first = rw bytes (word_at-le32 [] (le32 word) 0 sender refl small_sender)

      second : word_at (bytes_of hs) 4 ≡ word
      second = rw bytes (
          rw (← append-nil (le32 word))
            (word_at-le32 (le32 sender) [] 4 word (length-le32 sender) small_word))

  -- A request that one peer writes and the other receives in pieces on a live connection, the
  -- header apart from the body, is returned as its sender, its opcode, the wire form of its
  -- arguments and the first descriptor that is pending. The reads behind it are left for the next
  -- message. A piece has at least one byte, no error, and control data that the parser accepts in
  -- full. The sender's ID is not 0, ID and opcode fit the header, and the frame has at most 65535
  -- bytes.
  pub read_msg-request :
      (hs bs rest : List Recv) (sender opcode : ℕ) (args : List Arg) (w : World)
      → w.fatal_err ≡ none
      → w.input ≡ hs ++ (bs ++ rest)
      → All (IsPiece unix) hs
      → All (IsPiece unix) bs
      → length (bytes_of hs) ≡ 8
      → request sender opcode args ≡ ok (bytes_of hs ++ bytes_of bs)
      → sender ≢ 0
      → sender < 2 ^ 32
      → opcode < 65536
      → 8 + args_size args ≤ 65535
      → let w' = arrive unix bs rest (arrive unix hs (bs ++ rest) w) in
        read_msg unix w ≡ (frame sender opcode (take_fd w').0 (encode_args args), (take_fd w').1)
  unfolding read_msg arrive
  read_msg-request hs bs rest sender opcode args w alive input good_hs good_bs eight sent ne
        small_id small_op size =
      let (head, tail) = sent_parts in
      opened
      ∙ read_header-pieces hs (bs ++ rest) sender word w good_hs input (head ∙ rw header_lem refl)
          small_id (omega arith)
      ∙ read_frame-valid sender opcode (8 + args_size args) _ ne small_op (omega arith) size
          (omega (arith, length-encode_args args))
      ∙ read_body-pieces bs rest sender opcode (8 + args_size args) _ good_bs refl
          (rw tail (omega (arith, length-encode_args args)))
      ∙ rw tail refl
    where
      word : ℕ
      word = (8 + args_size args) * 65536 + opcode

      header_lem : header_word opcode args ≡ word
      header_lem = unfold header_word in omega arith

      opened : read_msg unix w ≡ read_header unix w
      opened = ground arith

      sent_parts :
          (bytes_of hs ≡ le32 sender ++ le32 (header_word opcode args))
          × (bytes_of bs ≡ encode_args args)
      sent_parts =
          append_split (bytes_of hs) _ _ _
            (eight
              ∙ sym (
                  omega (
                    arith,
                    length-append (le32 sender) (le32 (header_word opcode args)),
                    length-le32,
                  )))
            (ok-injective (sym sent ∙ request-encode_args sender opcode args)
              ∙ sym
                  (append_assoc (le32 sender) (le32 (header_word opcode args)) (encode_args args)))
