-- ===== src/Fatal.antt =====
-- Closing descriptors, and the sticky fatal error: `closeFDs` of client/event.go, and
-- `closeReceivedFD`, `setFatal`, `putBackFD`, `recordDisplayError` and `Close` of
-- client/context.go. A descriptor -1 is `none`.
use sysc_wayland.Base.{ℕ, List, [], ◌∷◌, Option, none, some}
use sysc_wayland.World.{World, Error, display_error, proxy_id}

unfoldable pub close_fds : List ℕ → World → World
close_fds [] w = w
close_fds (fd ∷ fds) w = close_fds fds (record w { closed = fd ∷ w.closed })

unfoldable pub close_received_fd : Option ℕ → World → World
close_received_fd none w = w
close_received_fd (some fd) w = record w { closed = fd ∷ w.closed }

-- The fatal error that holds from now on, which is the first one.
unfoldable pub set_fatal : Error → World → Error × World
set_fatal err w = elim w.fatal_err [
  | some old ↦ (old, w)
  | none ↦
      let w' =
        close_fds w.pending_fds (record w { ctx = record (w.ctx) { fatal_err = some err } }) in
      (err, record w' { ctx = record (w'.ctx) { pending_fds = [] } })
]

unfoldable pub put_back_fd : Option ℕ → World → World
put_back_fd none w = w
put_back_fd (some fd) w = record w { ctx = record (w.ctx) { pending_fds = fd ∷ w.pending_fds } }

-- `ObjectId` of the event is a pointer, or nil.
unfoldable pub record_display_error : Option ℕ → ℕ → List ℕ → World → World
record_display_error object code message w = elim object [
  | none ↦ (set_fatal (display_error 0 code message) w).1
  | some p ↦ (set_fatal (display_error (proxy_id p w) code message) w).1
]

-- `Close`, up to the call that closes the connection.
unfoldable pub close : World → World
close w =
    let w' = close_fds w.pending_fds w in record w' { ctx = record (w'.ctx) { pending_fds = [] } }
