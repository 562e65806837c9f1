-- ===== src/Runs/Transport.antt =====
-- Frames, their arguments and the socket on a small connection.
use sysc_wayland.Base.{
  ℕ, ◌+◌, ◌%◌, ◌≤◌, ◌≡◌, refl, true, false, List, [], ◌∷◌, ◌++◌, none, some, copies, arith, leb,
  length,
}
use sysc_wayland.World.{World, Recv, frame_size}
use sysc_wayland.Wire.{
  Arg, word, text, array, request, ok, padded_len, string_at, array_at, arg_size, args_size, le32,
}
use sysc_wayland.Wire.Request.{
  encode_arg, encode_args, header_word, request-encode_args, padded_len_bounds,
}
use sysc_wayland.Wire.RoundTrip.{string_at-encode_arg, array_at-encode_arg}
use sysc_wayland.Wire.Bounds.{StringFits, string_at-StringFits}
use sysc_wayland.Socket.{frame, read_msg, read_exact, take_fd}
use sysc_wayland.Socket.Accounts.{total, message_fds, read_msg-Accounts}
use sysc_wayland.Socket.Frames.{bytes_of, arrive, read_exact-pieces}
use sysc_wayland.Socket.Transfer.{read_msg-request}
use sysc_wayland.Send.{write_frame, write_msg, is_frame}
use sysc_wayland.Send.Delivery.{Delivers, write_frame-Delivers}
use sysc_wayland.Send.Checks.{request-is_frame, write_msg_lem}
use sysc_wayland.Runs.{one_message, piece, piece-IsPiece, start}

read_msg-Accounts_example :
    let (m, w') = read_msg one_message start in
    total one_message 9 w' + copies 9 (message_fds m) ≡ total one_message 9 start
read_msg-Accounts_example = read_msg-Accounts one_message 9 start

write_frame-Delivers_example :
    Delivers
      (1 ∷ 2 ∷ 3 ∷ 4 ∷ 5 ∷ 6 ∷ 7 ∷ 8 ∷ [])
      []
      start
      (write_frame (1 ∷ 2 ∷ 3 ∷ 4 ∷ 5 ∷ 6 ∷ 7 ∷ 8 ∷ []) [] start)
write_frame-Delivers_example = write_frame-Delivers (1 ∷ 2 ∷ 3 ∷ 4 ∷ 5 ∷ 6 ∷ 7 ∷ 8 ∷ []) [] start

request-encode_args_example :
    request 2 1 (text (104 ∷ 105 ∷ []) ∷ word 3 ∷ [])
    ≡ ok (
        le32 2
        ++ (le32 (header_word 1 (text (104 ∷ 105 ∷ []) ∷ word 3 ∷ []))
            ++ encode_args (text (104 ∷ 105 ∷ []) ∷ word 3 ∷ [])))
request-encode_args_example = request-encode_args 2 1 (text (104 ∷ 105 ∷ []) ∷ word 3 ∷ [])

padded_len_bounds_example : (5 ≤ padded_len 5) × (padded_len 5 ≤ 5 + 3) × (padded_len 5 % 4 ≡ 0)
padded_len_bounds_example = padded_len_bounds 5

string_at-StringFits_example :
    StringFits (9 ∷ 0 ∷ 0 ∷ 0 ∷ 104 ∷ []) 0 (string_at (9 ∷ 0 ∷ 0 ∷ 0 ∷ 104 ∷ []) 0)
string_at-StringFits_example = string_at-StringFits (9 ∷ 0 ∷ 0 ∷ 0 ∷ 104 ∷ []) 0

string_at-encode_arg_example :
    string_at ((1 ∷ 2 ∷ 3 ∷ 4 ∷ []) ++ (encode_arg (text (104 ∷ 105 ∷ [])) ++ (6 ∷ []))) 4
    ≡ ok (104 ∷ 105 ∷ [], 4 + arg_size (text (104 ∷ 105 ∷ [])))
string_at-encode_arg_example =
    string_at-encode_arg (1 ∷ 2 ∷ 3 ∷ 4 ∷ []) (104 ∷ 105 ∷ []) (6 ∷ []) 4 refl (omega arith)
      (omega arith, (omega arith, tt))

array_at-encode_arg_example :
    array_at ((1 ∷ 2 ∷ 3 ∷ 4 ∷ []) ++ (encode_arg (array (104 ∷ 0 ∷ [])) ++ (6 ∷ []))) 4
    ≡ ok (104 ∷ 0 ∷ [], 4 + arg_size (array (104 ∷ 0 ∷ [])))
array_at-encode_arg_example =
    array_at-encode_arg (1 ∷ 2 ∷ 3 ∷ 4 ∷ []) (104 ∷ 0 ∷ []) (6 ∷ []) 4 refl (omega arith)

abbrev short : List ℕ
short = 1 ∷ 2 ∷ 3 ∷ []

write_msg_lem_example :
    let (err, w') = write_msg short [] start in
    Delivers short [] start (err, w')
    × (is_frame short ≡ false → (err ≡ some (frame_size (length short))) × (w' ≡ start))
    × (is_frame short ≡ true → w'.fatal_err ≡ err)
write_msg_lem_example = write_msg_lem short [] start refl

abbrev name_args : List Arg
name_args = text (104 ∷ 105 ∷ []) ∷ word 3 ∷ []

abbrev name_frame : List ℕ
name_frame = le32 2 ++ (le32 (header_word 1 name_args) ++ encode_args name_args)

request-is_frame_example : is_frame name_frame ≡ leb (8 + args_size name_args) 65535
request-is_frame_example =
    request-is_frame 2 1 name_args name_frame (request-encode_args 2 1 name_args)

read_exact-pieces_example :
    read_exact one_message
      ((piece (1 ∷ 2 ∷ []) (9 ∷ []) ∷ piece (3 ∷ []) [] ∷ []) ++ [])
      (length (bytes_of (piece (1 ∷ 2 ∷ []) (9 ∷ []) ∷ piece (3 ∷ []) [] ∷ [])))
      []
      start
    ≡ (
      ([] ++ bytes_of (piece (1 ∷ 2 ∷ []) (9 ∷ []) ∷ piece (3 ∷ []) [] ∷ []), none),
      arrive one_message (piece (1 ∷ 2 ∷ []) (9 ∷ []) ∷ piece (3 ∷ []) [] ∷ []) [] start,
    )
read_exact-pieces_example =
    read_exact-pieces one_message (piece (1 ∷ 2 ∷ []) (9 ∷ []) ∷ piece (3 ∷ []) [] ∷ []) [] [] start
      (piece-IsPiece 1 (2 ∷ []) (9 ∷ []) (omega arith), (piece-IsPiece 3 [] [] (omega arith), tt))

abbrev header_piece : Recv
header_piece = piece (2 ∷ 0 ∷ 0 ∷ 0 ∷ 1 ∷ 0 ∷ 12 ∷ 0 ∷ []) []

abbrev body_piece : Recv
body_piece = piece (5 ∷ 0 ∷ 0 ∷ 0 ∷ []) (9 ∷ [])

abbrev arriving : World
arriving = record start { input = header_piece ∷ body_piece ∷ [] }

sent_request :
    request 2 1 (word 5 ∷ []) ≡ ok (bytes_of (header_piece ∷ []) ++ bytes_of (body_piece ∷ []))
unfolding bytes_of le32 header_word encode_args encode_arg args_size arg_size
sent_request = request-encode_args 2 1 (word 5 ∷ [])

read_msg-request_example :
    let w' =
      arrive one_message
        (body_piece ∷ [])
        []
        (arrive one_message (header_piece ∷ []) (body_piece ∷ []) arriving) in
    read_msg one_message arriving
    ≡ (frame 2 1 (take_fd w').0 (encode_args (word 5 ∷ [])), (take_fd w').1)
unfolding bytes_of args_size arg_size
read_msg-request_example =
    read_msg-request one_message (header_piece ∷ []) (body_piece ∷ []) [] 2 1 (word 5 ∷ []) arriving
      refl refl (piece-IsPiece _ _ [] (omega arith), tt)
      (piece-IsPiece _ _ (9 ∷ []) (omega arith), tt) refl sent_request (λ e. omega arith)
      (omega arith) (omega arith) (omega arith)
