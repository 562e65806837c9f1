-- ===== src/Dispatch.antt =====
-- `Dispatch` of client/context.go: reads one message, finds its object, and runs the object's
-- `Dispatch`, or its `AbsorbNewIDs` where the object is a zombie.
pub mod Interfaces
pub mod Accounts
pub mod Fatality
use sysc_wayland.Base.{ℕ, Bool, true, false, not, ◌&&◌, List, Option, none, some, if◌then◌else◌}
use sysc_wayland.World.{
  World, Kind, display, Error, unable_to_read, sender_not_found, sender_unsupported, panic_handling,
  is_read_timeout, is_zombie, Outcome, done, panicked,
}
use sysc_wayland.Ids.{lookup_proxy}
use sysc_wayland.Fatal.{close_received_fd, set_fatal, put_back_fd}
use sysc_wayland.Socket.Kernel.{Unix}
use sysc_wayland.Socket.{Message, error, frame, read_msg}
use Interfaces.{Methods}

-- `return ctx.setFatal(err)`
unfoldable pub sticky : Error → World → Option Error × World
sticky err w = let (e, w') = set_fatal err w in (some e, w')

-- The end of `Dispatch`: returns `fatalErr`, which is nil if nothing went wrong.
abbrev pub finish : World → Option Error × World
finish w = (w.fatal_err, w)

-- The deferred function: a panic closes the descriptor and becomes the sticky error.
unfoldable pub recover : ℕ → ℕ → Option ℕ → Outcome (Unit {0}) → Option Error × World
recover sender opcode fd (done _ w) = finish w
recover sender opcode fd (panicked p w) =
    sticky (panic_handling opcode sender p) (close_received_fd fd w)

-- `proxy.(*Display)`
unfoldable pub is_display : Kind → Bool
is_display display = true
is_display _ = false

module _ (unix : Unix) (methods : Methods) where
  open methods use {has_fd, absorb_new_ids, dispatch as dispatch_method}

  -- A descriptor that the event does not carry goes back to the front of the queue.
  unfoldable pub route_fd : Kind → ℕ → Option ℕ → World → Option ℕ × World
  route_fd kind opcode fd w = elim (has_fd kind) [
    | none ↦ (fd, w)
    | some f ↦ if not (f opcode) then (none, put_back_fd fd w) else (fd, w)
  ]

  -- The zombie branch. The descriptor is closed first, so the deferred function has none to close.
  unfoldable pub absorb : ℕ → ℕ → ℕ → Option ℕ → List ℕ → World → Option Error × World
  absorb p sender opcode fd body w =
      let w' = close_received_fd fd w in
      elim (absorb_new_ids (w.heap p).kind) [
        | none ↦ finish w'
        | some m ↦ recover sender opcode none (m p opcode body w')
      ]

  unfoldable pub handle : ℕ → ℕ → ℕ → Option ℕ → List ℕ → World → Option Error × World
  handle p sender opcode fd body w = elim (dispatch_method (w.heap p).kind) [
    | none ↦ sticky (sender_unsupported sender) (close_received_fd fd w)
    | some m ↦ recover sender opcode fd (m p opcode fd body w)
  ]

  -- `Dispatch` once the sender is known.
  unfoldable pub deliver : ℕ → ℕ → ℕ → Option ℕ → List ℕ → World → Option Error × World
  deliver p sender opcode fd body w =
      let (fd', w') = route_fd (w.heap p).kind opcode fd w in
      if is_zombie p w' && not (is_display (w'.heap p).kind)
      then absorb p sender opcode fd' body w'
      else handle p sender opcode fd' body w'

  -- `Dispatch` on what `ReadMsg` returned.
  unfoldable pub dispatch_message : Message × World → Option Error × World
  dispatch_message (error e, w) =
      if is_read_timeout e then (some e, w) else sticky (unable_to_read e) w
  dispatch_message (frame sender opcode fd body, w) = elim (lookup_proxy sender w) [
    | none ↦ sticky (sender_not_found sender) (close_received_fd fd w)
    | some p ↦ deliver p sender opcode fd body w
  ]

  unfoldable pub dispatch : World → Option Error × World
  dispatch w = elim w.fatal_err [ some e ↦ (some e, w) | none ↦ dispatch_message (read_msg unix w) ]
