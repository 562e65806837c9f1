-- ===== src/Runs/Objects.antt =====
-- The table of objects, the requests and the dispatcher on a small connection.
use sysc_wayland.Base.{ℕ, ◌≡◌, refl, List, [], ◌∷◌, none, some, arith}
use sysc_wayland.World.{
  World, Recv, display, callback, header, done, is_read_timeout, is_deadline, unexpected_eof,
}
use sysc_wayland.Wire.{word, arg_size, args_size, le32}
use sysc_wayland.Wire.Request.{encode_arg, encode_args, header_word, request-encode_args}
use sysc_wayland.Fatal.{put_back_fd}
use sysc_wayland.Bindings.Release.{dispatch-delete_id}
use sysc_wayland.Ids.{lookup_proxy, register, register_with_id, delete_id, install}
use sysc_wayland.Ids.Invariant.{IsValid}
use sysc_wayland.Ids.Allocate.{allocate, register-allocate}
use sysc_wayland.Ids.Register.{Registers, register-Registers}
use sysc_wayland.Ids.Reuse.{
  Adopts, register-delete_id, register_with_id-Adopts, delete_id-delete_id,
}
use sysc_wayland.Ids.Lifecycle.{create, release, destroy, run, run-IsValid}
use sysc_wayland.Socket.{frame, read_msg, read_exact, read_header, fail_read, take_fd}
use sysc_wayland.Socket.Descriptors.{input_fds, oob_fds}
use sysc_wayland.Socket.Accounts.{total}
use sysc_wayland.Socket.Frames.{bytes_of, arrive}
use sysc_wayland.Socket.Transfer.{read_msg-request}
use sysc_wayland.Send.{write_msg}
use sysc_wayland.Dispatch.{dispatch, dispatch_message, sticky}
use sysc_wayland.Fatal.{set_fatal, close_fds}
use sysc_wayland.Dispatch.Accounts.{AreCareful, dispatch-total}
use sysc_wayland.Dispatch.Fatality.{dispatch-dispatch}
use sysc_wayland.Bindings.Table.{generated}
use sysc_wayland.Bindings.Careful.{generated-AreCareful}
use sysc_wayland.Bindings.Requests.{send}
use sysc_wayland.Bindings.Requests
use sysc_wayland.Bindings.Announce.{Announces, create-Announces}
use sysc_wayland.Runs.{
  no_methods, no_methods-AreCareful, one_message, piece, piece-IsPiece, silent, silent-Keeps, start,
  start-IsValid,
}

dispatch-total_example :
    total one_message 9 (dispatch one_message (generated silent no_methods) start).1
    ≡ total one_message 9 start
dispatch-total_example =
    dispatch-total one_message (generated silent no_methods)
      (generated-AreCareful one_message silent silent-Keeps no_methods no_methods-AreCareful) 9
      start

generated-AreCareful_example : AreCareful one_message (generated silent no_methods)
generated-AreCareful_example =
    generated-AreCareful one_message silent silent-Keeps no_methods no_methods-AreCareful

create-Announces_example :
    Announces callback 0 0
      (λ id w. word id ∷ [])
      start
      (Requests.create callback 0 0 (λ id w. word id ∷ []) start)
create-Announces_example =
    create-Announces callback 0 0 (λ id w. word id ∷ []) start start-IsValid refl (omega arith)

register-Registers_example : Registers 5 start (register 5 start)
register-Registers_example = register-Registers 5 start start-IsValid

register-allocate_example : register 5 start ≡ allocate 5 start
register-allocate_example = register-allocate 5 start start-IsValid

run-IsValid_example :
    IsValid (run (create callback ∷ release 2 ∷ create display ∷ destroy 0 ∷ []) start)
run-IsValid_example =
    run-IsValid (create callback ∷ release 2 ∷ create display ∷ destroy 0 ∷ []) start start-IsValid

register-delete_id_example :
    register 5 (delete_id 2 start)
    ≡ done tt (install 5 2 (record start { ctx = record (start.ctx) { objects = (1, 0) ∷ [] } }))
register-delete_id_example =
    register-delete_id 5 2 1 start start-IsValid refl (omega arith) (omega arith)

register_with_id-Adopts_example : Adopts 5 4278190081 start (register_with_id 5 4278190081 start)
register_with_id-Adopts_example = register_with_id-Adopts 5 4278190081 start

delete_id-delete_id_example : delete_id 2 (delete_id 2 start) ≡ delete_id 2 start
delete_id-delete_id_example = delete_id-delete_id 2 start

abbrev cut_off : World
cut_off = record start { input = [] }

abbrev cut_off_after : World
cut_off_after = record cut_off {
  ctx = record (cut_off.ctx) { fatal_err = some (header unexpected_eof); pending_fds = [] };
  closed = 7 ∷ [];
}

cut_off_fails :
    dispatch one_message no_methods cut_off ≡ (some (header unexpected_eof), cut_off_after)
unfolding dispatch dispatch_message sticky read_msg read_header read_exact fail_read set_fatal
    close_fds is_read_timeout is_deadline
cut_off_fails = refl

dispatch-dispatch_example :
    (dispatch one_message no_methods cut_off_after ≡ (some (header unexpected_eof), cut_off_after))
    × ((b oob : List ℕ)
        → write_msg b oob cut_off_after ≡ (some (header unexpected_eof), cut_off_after))
unfolding is_read_timeout
dispatch-dispatch_example =
    dispatch-dispatch one_message no_methods cut_off cut_off_after (header unexpected_eof)
      cut_off_fails refl

abbrev release_header : Recv
release_header = piece (1 ∷ 0 ∷ 0 ∷ 0 ∷ 1 ∷ 0 ∷ 12 ∷ 0 ∷ []) []

abbrev release_body : Recv
release_body = piece (2 ∷ 0 ∷ 0 ∷ 0 ∷ []) []

abbrev releasing : World
releasing = record start { input = release_header ∷ release_body ∷ [] }

abbrev released : World
released = record start { ctx = record (start.ctx) { pending_fds = [] }; input = [] }

release_read : read_msg one_message releasing ≡ (frame 1 1 (some 7) (le32 2), released)
unfolding bytes_of le32 header_word encode_args encode_arg args_size arg_size arrive take_fd
    input_fds oob_fds
release_read =
    read_msg-request one_message (release_header ∷ []) (release_body ∷ []) [] 1 1 (word 2 ∷ [])
      releasing refl refl (piece-IsPiece _ _ [] (omega arith), tt)
      (piece-IsPiece _ _ [] (omega arith), tt) refl (request-encode_args 1 1 (word 2 ∷ []))
      (λ e. omega arith) (omega arith) (omega arith) (omega arith)

dispatch-delete_id_example :
    dispatch one_message (generated silent no_methods) releasing
    ≡ (none, delete_id 2 (put_back_fd (some 7) released))
unfolding lookup_proxy
dispatch-delete_id_example =
    dispatch-delete_id one_message silent no_methods 0 2 (some 7) releasing released refl
      release_read refl refl (omega arith) refl refl
