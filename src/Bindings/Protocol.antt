-- ===== src/Bindings/Protocol.antt =====
-- The event error of wl_display, from the socket to the error that `Dispatch` returns.
use sysc_wayland.Base.{
  ℕ, ◌+◌, ◌<◌, ◌^◌, ◌≡◌, ◌∙◌, refl, ap, false, List, [], ◌∷◌, ◌++◌, Option, none, some, arith,
  length-append,
}
use mathlib.Core.List.{append_assoc}
use sysc_wayland.World.{World, M, Error, display, display_error, done, proxy_id}
use sysc_wayland.Wire.{word, text, le32, ok, uint32_at, string_at, arg_size}
use sysc_wayland.Wire.Request.{encode_arg, encode_args, length-le32}
use sysc_wayland.Wire.RoundTrip.{uint32_at-le32, string_at-encode_arg}
use sysc_wayland.Ids.{lookup_proxy}
use sysc_wayland.Ids.Table.{table-record_display_error}
use sysc_wayland.Fatal.{record_display_error, set_fatal, put_back_fd}
use sysc_wayland.Socket.Kernel.{Unix}
use sysc_wayland.Socket.{frame, read_msg}
use sysc_wayland.Socket.Descriptors.{set_fatal_lem}
use sysc_wayland.Dispatch.Interfaces.{Methods}
use sysc_wayland.Dispatch.{recover, handle, dispatch_message, dispatch}
use sysc_wayland.Bindings.Events.{Event}
use sysc_wayland.Bindings.Objects.{lift, if_handled, ◌>>=◌}
use sysc_wayland.Bindings.Decoders.Display
use sysc_wayland.Bindings.Table
use sysc_wayland.Bindings.Table.{generated}
use sysc_wayland.Bindings.Release.{deliver-display, put_back_heap, put_back_fatal}
use sysc_wayland.Bindings.Arrivals.{IsText}

-- The ID of the object that an error is about, or 0 if the table does not have it.
pub reported : Option ℕ → World → ℕ
reported none w = 0
reported (some p) w = proxy_id p w

record_display_error-fatal :
    (object : Option ℕ) (code : ℕ) (message : List ℕ) (w : World)
    → w.fatal_err ≡ none
    → (record_display_error object code message w).fatal_err
      ≡ some (display_error (reported object w) code message)
unfolding record_display_error reported
record_display_error-fatal none code message w alive = (set_fatal_lem _ w alive).1
record_display_error-fatal (some p) code message w alive = (set_fatal_lem _ w alive).1

set_fatal-empties :
    (e : Error) (w : World) → w.fatal_err ≡ none → (set_fatal e w).1.pending_fds ≡ []
unfolding set_fatal
set_fatal-empties e w alive = rw (alive, set_fatal) refl

record_display_error-empties :
    (object : Option ℕ) (code : ℕ) (message : List ℕ) (w : World)
    → w.fatal_err ≡ none
    → (record_display_error object code message w).pending_fds ≡ []
unfolding record_display_error
record_display_error-empties none code message w alive = set_fatal-empties _ w alive
record_display_error-empties (some p) code message w alive = set_fatal-empties _ w alive

module _ (id code : ℕ) (message : List ℕ) where
  -- The arguments of the event on the wire.
  abbrev pub body : List ℕ
  body = encode_args (word id ∷ word code ∷ text message ∷ [])

  -- The state once the context has recorded the error.
  abbrev pub recorded : World → World
  recorded w = record_display_error (lookup_proxy id w) code message w

module _ (on_event : ℕ → Event → M (Unit {0})) (id code : ℕ) (message : List ℕ) where
  decodes :
      (p : ℕ) (w : World)
      → id < 2 ^ 32
      → code < 2 ^ 32
      → IsText message
      → (w.heap p).handler 0 ≡ false
      → Display.dispatch on_event p 0 none (body id code message) w
        ≡ done tt (recorded id code message w)
  unfolding Display.dispatch Display.error_event ◌>>=◌ lift if_handled encode_args encode_arg
  decodes p w i c (fits, nonzero) nil =
      let mid = encode_arg (text message) ++ [] in
      let a : uint32_at (le32 id ++ (le32 code ++ mid)) 0 ≡ ok id =
        uint32_at-le32 [] (le32 code ++ mid) 0 id refl i in
      let b : uint32_at (le32 id ++ (le32 code ++ mid)) 4 ≡ ok code =
        uint32_at-le32 (le32 id) mid 4 code (length-le32 id) c in
      let s : string_at (le32 id ++ (le32 code ++ mid)) 8
          ≡ ok (message, 8 + arg_size (text message)) =
        rw (← append_assoc (le32 id) (le32 code) mid) (
          string_at-encode_arg (le32 id ++ le32 code) message [] 8
            (omega (arith, length-append (le32 id) (le32 code), length-le32 id, length-le32 code))
            fits nonzero) in
      let heap : ((recorded id code message w).heap p).handler 0 ≡ false =
        ap (λ t. (t.3 p).handler 0) (table-record_display_error (lookup_proxy id w) code message w)
        ∙ nil in
      rw a (rw (b, s) (rw heap refl))

module _ (unix : Unix) (on_event : ℕ → Event → M (Unit {0})) (foreign : Methods) (id code : ℕ)
    (message : List ℕ) where
  handled :
      (p : ℕ) (w : World)
      → (w.heap p).kind ≡ display
      → id < 2 ^ 32
      → code < 2 ^ 32
      → IsText message
      → (w.heap p).handler 0 ≡ false
      → handle unix (generated on_event foreign) p 1 0 none (body id code message) w
        ≡ ((recorded id code message w).fatal_err, recorded id code message w)
  unfolding handle Table.dispatch recover
  handled p w kind i c fits nil =
      rw (kind, handle) (rw (decodes on_event id code message p w i c fits nil) refl)

  -- A protocol error that the compositor sends is what `Dispatch` returns, with the object's ID, or 0
  -- for an object that the table does not have, the code and the message as they were sent; it is
  -- the sticky error from then on, and no descriptor waits any more. No handler is set for the event, and the connection is alive before
  -- and after the read.
  pub dispatch-display_error :
      (p : ℕ) (fd : Option ℕ) (w u : World)
      → w.fatal_err ≡ none
      → read_msg unix w ≡ (frame 1 0 fd (body id code message), u)
      → lookup_proxy 1 u ≡ some p
      → (u.heap p).kind ≡ display
      → id < 2 ^ 32
      → code < 2 ^ 32
      → IsText message
      → (u.heap p).handler 0 ≡ false
      → u.fatal_err ≡ none
      → let v = put_back_fd fd u in
        let w' = recorded id code message v in
        let e = display_error (reported (lookup_proxy id v) v) code message in
        (dispatch unix (generated on_event foreign) w ≡ (some e, w'))
        × (w'.fatal_err ≡ some e)
        × (w'.pending_fds ≡ [])
  unfolding dispatch dispatch_message
  dispatch-display_error p fd w u alive read found kind i c fits nil alive' =
      let v = put_back_fd fd u in
      let same = put_back_heap fd u in
      let still : v.fatal_err ≡ none = put_back_fatal fd u ∙ alive' in
      let fatal = record_display_error-fatal (lookup_proxy id v) code message v still in
      let w' = recorded id code message v in
      (
        rw (alive, dispatch)
            (rw (read, found, dispatch_message)
              (deliver-display unix on_event foreign p 1 0 fd (body id code message) u kind
                ∙ handled p v (ap (λ h. (h p).kind) same ∙ kind) i c fits
                    (ap (λ h. (h p).handler 0) same ∙ nil)
                ∙ ap (λ e. (e, w')) fatal)),
        fatal,
        record_display_error-empties (lookup_proxy id v) code message v still,
      )
