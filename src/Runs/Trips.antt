-- ===== src/Runs/Trips.antt =====
-- Whole dispatches, roundtrips and the enumerations on concrete inputs.
use sysc_wayland.Base.{
  ℕ, ◌∙◌, ap, ◌++◌, ◌≤◌, ◌<◌, ◌≡◌, refl, true, false, [], ◌∷◌, Option, none, some, arith, length,
}
use mathlib.Core.List.{Memᴰ}
use sysc_wayland.World.{
  World, Error, Outcome, done, is_zombie, state, new_proxy, callback, mark_zombie, proxy_id, update,
  alloc, set_id, set_context,
}
use sysc_wayland.Wire.{le32, word, word_at, uint32_at, arg_size, args_size}
use sysc_wayland.Wire.Request.{request-encode_args, header_word, encode_args, encode_arg}
use sysc_wayland.Send.{is_frame, write_frame, write_first, write_accepted, write_rest, write_msg}
use sysc_wayland.Ids.{lookup_proxy, register, install}
use sysc_wayland.Ids.Invariant.{IsValid}
use sysc_wayland.Fatal.{put_back_fd}
use sysc_wayland.Socket.{frame, read_msg, take_fd}
use sysc_wayland.Socket.Descriptors.{input_fds, oob_fds}
use sysc_wayland.Socket.Frames.{bytes_of, arrive}
use sysc_wayland.Socket.Transfer.{read_msg-request}
use sysc_wayland.Dispatch.{dispatch}
use sysc_wayland.Bindings.Table.{generated}
use sysc_wayland.Bindings.Events.{Event}
use sysc_wayland.Bindings.Keeps.{Keeps}
use sysc_wayland.Bindings.Keeps.Tables.{StaysValid}
use sysc_wayland.Bindings.Keeps.Inputs.{ReadsOn}
use sysc_wayland.Bindings.Keeps.Dispatched.{Respects}
use sysc_wayland.Bindings.Keeps.Whole.{dispatch-IsValid, dispatch-Consumes}
use sysc_wayland.Bindings.Announce.{create_sends}
use sysc_wayland.Bindings.Objects.{set_handler}
use sysc_wayland.Bindings.Requests.Display.{sync}
use sysc_wayland.Bindings.Enums.DisplayError
use sysc_wayland.Bindings.Enums.Sound.{IsSound, enums-AreSound}
use sysc_wayland.Connect.Runtime.{Host, natural, conn, refused}
use sysc_wayland.Connect.{Process, connect}
use sysc_wayland.Connect.Owners.{Owns, Consumed, connect-Owns, connect-Consumed}
use sysc_wayland.Connect.Start.{new_display, new_display-IsValid}
use sysc_wayland.Roundtrip.{roundtrip, set_done}
use sysc_wayland.Roundtrip.Turns.{Ends, EndsOn}
use sysc_wayland.Roundtrip.Returns.{roundtrip-Ends}
use sysc_wayland.Roundtrip.Answers.{roundtrip-EndsOn}
use sysc_wayland.Roundtrip.Delivery.{roundtrip-dispatch}
use sysc_wayland.Runs.{no_methods, one_message, piece, piece-IsPiece, silent, start, start-IsValid}

silent-StaysValid : (p : ℕ) (e : Event) → Keeps StaysValid (silent p e)
silent-StaysValid p e = record { keeps = λ w v. v }

silent-ReadsOn : (p : ℕ) (e : Event) → Keeps ReadsOn (silent p e)
silent-ReadsOn p e = record { keeps = λ w. omega arith }

no_methods-Respects : (R : World → World → Type 0) → Respects R no_methods
no_methods-Respects R = record { dispatches = λ kind m e. cc; absorbs = λ kind m e. cc }

dispatch-IsValid_example : IsValid (dispatch one_message (generated silent no_methods) start).1
dispatch-IsValid_example =
    dispatch-IsValid one_message silent no_methods silent-StaysValid
      (no_methods-Respects StaysValid) start start-IsValid

dispatch-Consumes_example :
    let r = dispatch one_message (generated silent no_methods) start in
    (length r.1.input ≤ 1) × (r.0 ≡ none → length r.1.input < 1)
dispatch-Consumes_example =
    dispatch-Consumes one_message silent no_methods silent-ReadsOn (no_methods-Respects ReadsOn)
      start

-- The socket takes the sync request, and the compositor answers with the done event.
abbrev asking : World
asking = record start {
  input = piece (3 ∷ 0 ∷ 0 ∷ 0 ∷ 0 ∷ 0 ∷ 12 ∷ 0 ∷ []) [] ∷ piece (5 ∷ 0 ∷ 0 ∷ 0 ∷ []) [] ∷ [];
  writes = record { wrote = some 12; wrote_oob = some 0; write_err = none } ∷ [];
}

roundtrip-Ends_example :
    (o : Outcome (Option Error)) × (n : ℕ) × (roundtrip one_message silent no_methods 3 0 asking
      ≡ some o)
    × Ends one_message silent no_methods 0 asking n o
    × (n ≤ 2)
roundtrip-Ends_example =
    roundtrip-Ends one_message silent no_methods silent-ReadsOn (no_methods-Respects ReadsOn) 3 0
      asking (omega arith)

roundtrip-EndsOn_example :
    EndsOn one_message silent no_methods 3 0 asking
      (roundtrip one_message silent no_methods 3 0 asking)
roundtrip-EndsOn_example = roundtrip-EndsOn one_message silent no_methods 3 0 asking

enums-AreSound_example : IsSound DisplayError.enum
enums-AreSound_example = enums-AreSound DisplayError.enum (Memᴰ.head refl)

-- The callback has the ID 3, and the request has gone out.
abbrev registered : World
registered = install 2 3 (record asking {
  ctx = record (asking.ctx) { free_ids = [] };
  heap = update asking.heap 2 (new_proxy callback);
  next_ref = 3;
})

abbrev synced : World
synced = record registered {
  writes = [];
  output = 1 ∷ 0 ∷ 0 ∷ 0 ∷ 0 ∷ 0 ∷ 12 ∷ 0 ∷ 3 ∷ 0 ∷ 0 ∷ 0 ∷ [];
}

request_sent :
    write_msg (1 ∷ 0 ∷ 0 ∷ 0 ∷ 0 ∷ 0 ∷ 12 ∷ 0 ∷ 3 ∷ 0 ∷ 0 ∷ 0 ∷ []) [] registered ≡ (none, synced)
unfolding write_msg is_frame write_frame write_first write_accepted write_rest word_at uint32_at
    install set_id set_context
request_sent = refl

id_registered : register 2 (state (alloc callback asking)) ≡ done tt registered
unfolding register install set_id set_context alloc
id_registered = refl

sync-asking : sync 0 asking ≡ done (2, none) synced
unfolding sync proxy_id le32 header_word encode_args encode_arg args_size arg_size install set_id
    set_context
sync-asking =
    create_sends callback 0 0 (λ id w. word id ∷ []) asking registered tt id_registered
    ∙ ap (λ r. done (2, r.0) r.1) request_sent

abbrev loop_start : World
loop_start = set_handler 2 0 (set_done 2 false synced)

abbrev answered : World
answered = record loop_start { ctx = record (loop_start.ctx) { pending_fds = [] }; input = [] }

answer_read : read_msg one_message loop_start ≡ (frame 3 0 (some 7) (le32 5), answered)
unfolding bytes_of le32 header_word encode_args encode_arg args_size arg_size arrive take_fd
    input_fds oob_fds set_handler set_done install set_id set_context
answer_read =
    read_msg-request one_message (piece (3 ∷ 0 ∷ 0 ∷ 0 ∷ 0 ∷ 0 ∷ 12 ∷ 0 ∷ []) [] ∷ [])
      (piece (5 ∷ 0 ∷ 0 ∷ 0 ∷ []) [] ∷ []) [] 3 0 (word 5 ∷ []) loop_start refl refl
      (piece-IsPiece _ _ [] (omega arith), tt) (piece-IsPiece _ _ [] (omega arith), tt) refl
      (request-encode_args 3 0 (word 5 ∷ [])) (λ e. omega arith) (omega arith) (omega arith)
      (omega arith)

roundtrip-dispatch_example :
    roundtrip one_message silent no_methods 1 0 asking
    ≡ some (done none (mark_zombie 2 (set_done 2 true (put_back_fd (some 7) answered))))
unfolding lookup_proxy set_handler set_done install set_id set_context is_zombie
roundtrip-dispatch_example =
    roundtrip-dispatch one_message silent no_methods 2 5 0 0 3 (some 7) asking synced answered
      sync-asking refl refl refl answer_read refl refl (omega arith)

-- The descriptor 6 is inherited as the connection 40; the system knows no other socket.
abbrev host : Host
host = record {
  atoi = λ t. some (natural (length t));
  new_file = λ fd. true;
  file_conn = λ fd. conn 40 true (some true);
  close_error = λ fd. none;
  unset_error = none;
  is_abs = λ t. true;
  join = λ a b. a ++ b;
  dial_unix = λ t. refused 2;
}

abbrev process : Process
process = record { env = λ v. some (9 ∷ []); opened = []; shut = []; closed_files = [] }

connect-Owns_example : Owns process (connect host [] process)
connect-Owns_example = connect-Owns host [] process

connect-Consumed_example : Consumed host 1 process (connect host [] process).1
connect-Consumed_example = connect-Consumed host 1 (9 ∷ []) process refl refl refl

new_display-IsValid_example :
    (new_display start ≡ done 2 (state (new_display start)))
    × ((state (new_display start)).objects ≡ (1, 2) ∷ [])
    × (proxy_id 2 (state (new_display start)) ≡ 1)
    × ((state (new_display start)).fatal_err ≡ none)
    × IsValid (state (new_display start))
new_display-IsValid_example = new_display-IsValid start
