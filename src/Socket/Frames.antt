-- ===== src/Socket/Frames.antt =====
-- Reading a frame that arrives in pieces: `readExactWith` and `ReadMsg` of client/event.go.
use sysc_wayland.Base.{
  ℕ, zero, suc, ◌-◌, ◌≤◌, ◌<◌, ◌≡◌, ◌∙◌, refl, false, List, [], ◌∷◌, ◌++◌, none, some, ltb, length,
  length-append, arith, All,
}
use mathlib.Core.List.{append_assoc, append-nil}
use sysc_wayland.World.{World, Recv}
use sysc_wayland.Socket.Kernel.{Unix}
use sysc_wayland.Socket.{collect_fds, get_fds_from_oob, receive_oob, read_exact, queue_fds}
use sysc_wayland.Socket.Descriptors.{scm_fds, oob_fds, input_fds}

unfoldable pub bytes_of : List Recv → List ℕ
bytes_of [] = []
bytes_of (r ∷ rs) = r.bytes ++ bytes_of rs

module _ (unix : Unix) where
  open unix use {Scm, parse_scms, parse_rights, oob_space}

  -- Control data that the parser accepts in full.
  abbrev pub IsWhole : List ℕ → Type 0
  IsWhole [] = Unit {0}
  IsWhole (c ∷ oob) =
      (scms : List Scm) × (length (c ∷ oob) ≤ oob_space)
      × (parse_scms (c ∷ oob) ≡ some scms)
      × All (λ scm. (parse_rights scm).1 ≡ false) scms

  -- A read that brings some bytes and no error.
  pub record IsPiece (r : Recv) : Type 0 where
    pub nonempty : 0 < length r.bytes
    pub no_error : r.read_err ≡ none
    pub no_truncation : r.truncated ≡ false
    pub whole : IsWhole r.oob

  collect_fds-whole :
      (scms : List Scm) (ret : List ℕ) (w : World)
      → All (λ scm. (parse_rights scm).1 ≡ false) scms
      → collect_fds unix scms ret w ≡ ((ret ++ scm_fds unix scms, none), w)
  unfolding collect_fds scm_fds
  collect_fds-whole [] ret w h = rw append-nil refl
  collect_fds-whole (scm ∷ scms) ret w (h, hs) =
      rw h (rw (collect_fds-whole scms (ret ++ (parse_rights scm).0) w hs, append_assoc) refl)

  -- The state once the reads `rs` are through and `rest` is still to come.
  unfoldable pub arrive : List Recv → List Recv → World → World
  arrive rs rest w = record w {
    ctx = record (w.ctx) { pending_fds = w.pending_fds ++ input_fds unix rs };
    input = rest;
  }

  get_fds-whole :
      (c : ℕ) (oob : List ℕ) (w : World) (scms : List Scm)
      → length (c ∷ oob) ≤ oob_space
      → parse_scms (c ∷ oob) ≡ some scms
      → All (λ scm. (parse_rights scm).1 ≡ false) scms
      → get_fds_from_oob unix (c ∷ oob) w ≡ ((scm_fds unix scms, none), w)
  unfolding get_fds_from_oob
  get_fds-whole c oob w scms room parsed good =
      rw (short, parsed) (collect_fds-whole scms [] w good)
    where
      short : ltb oob_space (length (c ∷ oob)) ≡ false
      short = ground arith

  receive_oob-whole :
      (oob : List ℕ) (w : World)
      → IsWhole oob
      → receive_oob unix oob w ≡ (
        none,
        record w { ctx = record (w.ctx) { pending_fds = w.pending_fds ++ oob_fds unix oob } },
      )
  unfolding receive_oob oob_fds queue_fds
  receive_oob-whole [] w h = rw append-nil refl
  receive_oob-whole (c ∷ oob) w (scms, room, parsed, good) =
      rw (get_fds-whole c oob w scms room parsed good) (rw (long, parsed) refl)
    where
      long : ltb oob_space (length (c ∷ oob)) ≡ false
      long = ground arith

  read_exact-piece :
      (r : Recv) (rest : List Recv) (need : ℕ) (got : List ℕ) (w : World)
      → IsPiece r
      → length r.bytes ≤ need
      → read_exact unix (r ∷ rest) need got w
        ≡ read_exact unix rest (need - length r.bytes) (got ++ r.bytes) (record w {
          ctx = record (w.ctx) { pending_fds = w.pending_fds ++ oob_fds unix r.oob };
        })
  unfolding read_exact
  read_exact-piece r rest zero got w h le = absurd (omega (arith, h.nonempty))
  read_exact-piece r rest (suc k) got w h le = ground (arith, receive_oob-whole r.oob w h.whole)

  -- A read of exactly the bytes that a row of pieces brings takes just these pieces, and the
  -- descriptors that come with them join the queue in the order of their arrival. A piece has at
  -- least one byte, no error, and control data that the parser accepts in full.
  pub read_exact-pieces :
      (rs rest : List Recv) (got : List ℕ) (w : World)
      → All IsPiece rs
      → read_exact unix (rs ++ rest) (length (bytes_of rs)) got w
        ≡ ((got ++ bytes_of rs, none), arrive rs rest w)
  unfolding bytes_of arrive input_fds
  read_exact-pieces [] rest got w h =
      rw (append-nil got) (rw (append-nil w.pending_fds) (unfold read_exact in refl))
  read_exact-pieces (r ∷ rs) rest got w (h, hs) =
      read_exact-piece r (rs ++ rest) _ got w h (omega (arith, length-append r.bytes (bytes_of rs)))
      ∙ rw remaining (
          read_exact-pieces rs rest (got ++ r.bytes) _ hs
          ∙ rw (append_assoc got r.bytes (bytes_of rs))
              (rw (append_assoc w.pending_fds (oob_fds unix r.oob) (input_fds unix rs)) refl))
    where
      remaining : length (r.bytes ++ bytes_of rs) - length r.bytes ≡ length (bytes_of rs)
      remaining = omega (arith, length-append r.bytes (bytes_of rs))
