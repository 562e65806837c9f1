-- ===== src/Runs.antt =====
-- A small connection on which the theorems are applied.
mod Objects
mod Transport
mod Trips
mod Arrivals
mod Generator
use sysc_wayland.Base.{
  ℕ, ◌≤◌, refl, true, false, List, [], ◌∷◌, none, some, ◌==◌, if◌then◌else◌, arith, length,
}
use sysc_wayland.World.{World, Recv, display, data_source, M, new_proxy, pure}
use sysc_wayland.Ids.Invariant.{IsValid}
use sysc_wayland.Socket.Kernel.{Unix}
use sysc_wayland.Socket.Frames.{IsWhole, IsPiece}
use sysc_wayland.Dispatch.Interfaces.{Methods}
use sysc_wayland.Dispatch.{dispatch}
use sysc_wayland.Dispatch.Accounts.{AreCareful}
use sysc_wayland.Bindings.Events.{Event}
use sysc_wayland.Bindings.Keeps.{Keeps}
use sysc_wayland.Bindings.Keeps.Totals.{SameTotals}

-- One control message, whose bytes are the descriptors.
abbrev pub one_message : Unix
one_message = record {
  Scm = List ℕ;
  parse_scms = λ oob. some (oob ∷ []);
  parse_rights = λ scm. (scm, false);
  oob_space = 1040;
}

-- A display and a data source are live, the ID 3 has been released, and the descriptor 7 waits.
abbrev pub start : World
start = record {
  ctx = record {
    objects = (1, 0) ∷ (2, 1) ∷ [];
    free_ids = 3 ∷ [];
    current_id = 3;
    fatal_err = none;
    pending_fds = 7 ∷ [];
  };
  heap = λ r.
      if r == 0
      then record (new_proxy display) { id = 1; bound = true }
      else record (new_proxy data_source) { id = 2; bound = true };
  next_ref = 2;
  closed = [];
  owned = [];
  input =
      record {
        bytes = 2 ∷ 0 ∷ 0 ∷ 0 ∷ 1 ∷ 0 ∷ 8 ∷ 0 ∷ [];
        oob = 9 ∷ [];
        truncated = false;
        read_err = none;
      }
      ∷ [];
  writes = record { wrote = some 5; wrote_oob = some 0; write_err = none } ∷ [];
  output = [];
  output_oob = [];
  finished = λ _. false;
}

pub start-IsValid : IsValid start
start-IsValid = record {
  counter = omega arith;
  free = λ n h. ground arith;
  live = λ n r h. ground arith;
}

abbrev pub silent : ℕ → Event → M (Unit {0})
silent p e = pure tt

pub silent-Keeps : (p : ℕ) (e : Event) → Keeps (SameTotals one_message) (silent p e)
silent-Keeps p e = record { keeps = λ w a. refl }

abbrev pub no_methods : Methods
no_methods = record { has_fd = λ k. none; absorb_new_ids = λ k. none; dispatch = λ k. none }

pub no_methods-AreCareful : AreCareful one_message no_methods
no_methods-AreCareful = record { dispatches = λ a kind m e. cc; absorbs = λ a kind m e. cc }

abbrev pub piece : List ℕ → List ℕ → Recv
piece bytes oob = record { bytes = bytes; oob = oob; truncated = false; read_err = none }

pub piece-IsPiece :
    (b : ℕ) (bytes oob : List ℕ) → length oob ≤ 1040 → IsPiece one_message (piece (b ∷ bytes) oob)
piece-IsPiece b bytes oob fits = record {
  nonempty = omega arith;
  no_error = refl;
  no_truncation = refl;
  whole = whole oob fits;
}
  where
    whole : (oob : List ℕ) → length oob ≤ 1040 → IsWhole one_message oob
    whole [] fits = tt
    whole (c ∷ oob) fits = ((c ∷ oob) ∷ [], fits, refl, (refl, tt))
