-- ===== src/Runs/Arrivals.antt =====
-- Events that a compositor sends, and a request that it reads, on concrete inputs.
use sysc_wayland.Base.{ℕ, List, ◌≡◌, refl, true, [], ◌∷◌, none, some, arith}
use sysc_wayland.World.{World, done, proxy_id, registry, new_proxy, display_error}
use sysc_wayland.Wire.{word, text, le32, arg_size, args_size}
use sysc_wayland.Wire.Request.{encode_arg, encode_args, header_word, request-encode_args}
use sysc_wayland.Ids.{lookup_proxy}
use sysc_wayland.Fatal.{put_back_fd}
use sysc_wayland.Socket.{frame, read_msg, take_fd}
use sysc_wayland.Socket.Descriptors.{input_fds, oob_fds}
use sysc_wayland.Socket.Frames.{bytes_of, arrive}
use sysc_wayland.Socket.Transfer.{read_msg-request}
use sysc_wayland.Send.{write_msg}
use sysc_wayland.Dispatch.{dispatch}
use sysc_wayland.Bindings.Requests.Registry.{bind}
use sysc_wayland.Bindings.Departures.{IsBind, bind-write_msg}
use sysc_wayland.Bindings.Events.{Event, RegistryEvent}
use sysc_wayland.Bindings.Objects.{call}
use sysc_wayland.Bindings.Decoders.Registry
use sysc_wayland.Bindings.Table.{generated}
use sysc_wayland.Bindings.Arrivals.{dispatch-global}
use sysc_wayland.Bindings.Protocol.{body, recorded, reported, dispatch-display_error}
use sysc_wayland.Runs.{no_methods, one_message, piece, piece-IsPiece, silent, start}

abbrev listening : World
listening = record start {
  heap = λ r. record (new_proxy registry) { id = 2; bound = true; handler = λ n. true };
}

dispatch-global_example :
    Registry.dispatch silent 1 0 none
      (encode_args (word 5 ∷ text (119 ∷ []) ∷ word 3 ∷ []))
      listening
    ≡ call silent 1 (Event.registry (RegistryEvent.global 5 (119 ∷ []) 3)) none listening
dispatch-global_example =
    dispatch-global silent 1 5 3 (119 ∷ []) none listening (omega arith) (omega arith)
      (omega arith, (omega arith, tt)) refl

-- The compositor reports the error 7 on the object 2, with the text `w`.
abbrev failing : World
failing = record start {
  input =
      piece (1 ∷ 0 ∷ 0 ∷ 0 ∷ 0 ∷ 0 ∷ 24 ∷ 0 ∷ []) []
      ∷ piece (2 ∷ 0 ∷ 0 ∷ 0 ∷ 7 ∷ 0 ∷ 0 ∷ 0 ∷ 2 ∷ 0 ∷ 0 ∷ 0 ∷ 119 ∷ 0 ∷ 0 ∷ 0 ∷ []) []
      ∷ [];
}

abbrev error_taken : World
error_taken = record start { ctx = record (start.ctx) { pending_fds = [] }; input = [] }

error_read : read_msg one_message failing ≡ (frame 1 0 (some 7) (body 2 7 (119 ∷ [])), error_taken)
unfolding bytes_of le32 header_word encode_args encode_arg args_size arg_size arrive take_fd
    input_fds oob_fds
error_read =
    let args = word 2 ∷ word 7 ∷ text (119 ∷ []) ∷ [] in
    read_msg-request one_message (piece (1 ∷ 0 ∷ 0 ∷ 0 ∷ 0 ∷ 0 ∷ 24 ∷ 0 ∷ []) [] ∷ [])
      (piece (2 ∷ 0 ∷ 0 ∷ 0 ∷ 7 ∷ 0 ∷ 0 ∷ 0 ∷ 2 ∷ 0 ∷ 0 ∷ 0 ∷ 119 ∷ 0 ∷ 0 ∷ 0 ∷ []) [] ∷ []) [] 1 0
      args failing refl refl (piece-IsPiece _ _ [] (omega arith), tt)
      (piece-IsPiece _ _ [] (omega arith), tt) refl (request-encode_args 1 0 args)
      (λ e. omega arith) (omega arith) (omega arith) (omega arith)

dispatch-display_error_example :
    let v = put_back_fd (some 7) error_taken in
    let w' = recorded 2 7 (119 ∷ []) v in
    let e = display_error (reported (lookup_proxy 2 v) v) 7 (119 ∷ []) in
    (dispatch one_message (generated silent no_methods) failing ≡ (some e, w'))
    × (w'.fatal_err ≡ some e)
    × (w'.pending_fds ≡ [])
unfolding lookup_proxy
dispatch-display_error_example =
    dispatch-display_error one_message silent no_methods 2 7 (119 ∷ []) 0 (some 7) failing
      error_taken refl error_read refl refl (omega arith) (omega arith)
      (omega arith, (omega arith, tt)) refl refl

bind-write_msg_example :
    (b : List ℕ) × (bind 0 5 (119 ∷ []) 3 1 start
      ≡ (let (e, w') = write_msg b [] start in done e w'))
    × IsBind 1 5 3 2 (119 ∷ []) b
unfolding proxy_id
bind-write_msg_example =
    bind-write_msg 0 5 3 1 (119 ∷ []) start (omega arith) (omega arith) (omega arith) (omega arith)
      (omega arith, (omega arith, tt)) (unfold arg_size in omega arith)
