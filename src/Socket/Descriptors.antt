-- ===== src/Socket/Descriptors.antt =====
-- Where the descriptors go while client/event.go reads.
use sysc_wayland.Base.{
  ℕ, zero, suc, ◌+◌, ◌-◌, ◌≡◌, refl, List, [], ◌∷◌, ◌++◌, none, some, ltb, if◌then◌else◌, length,
  copies, copies-append, arith, Bool-cases, Option-cases, inl, inr, ◌⊎◌,
}
use sysc_wayland.World.{World, Recv, Error}
use sysc_wayland.Fatal.{close_fds, set_fatal}
use sysc_wayland.Socket.Kernel.{Unix}
use sysc_wayland.Socket.{collect_fds, get_fds_from_oob, receive_oob, queue_fds, read_exact}

module _ (unix : Unix) where
  open unix use {Scm, parse_scms, parse_rights, oob_space}

  -- The descriptors that the kernel has installed for control data, as far as they are parsed.
  unfoldable pub scm_fds : List Scm → List ℕ
  scm_fds [] = []
  scm_fds (scm ∷ scms) =
      let more = scm_fds scms in
      let (fds, failed) = parse_rights scm in fds ++ (if failed then [] else more)

  unfoldable pub oob_fds : List ℕ → List ℕ
  oob_fds [] = []
  oob_fds (c ∷ oob) =
      if ltb oob_space (length (c ∷ oob))
      then []
      else elim (parse_scms (c ∷ oob)) [ none ↦ [] | some scms ↦ scm_fds scms ]

  unfoldable pub input_fds : List Recv → List ℕ
  input_fds [] = []
  input_fds (r ∷ rest) = oob_fds r.oob ++ input_fds rest

-- How often a descriptor is held: closed, handed over, or pending.
unfoldable pub held : ℕ → World → ℕ
held a w = copies a w.closed + copies a w.owned + copies a w.pending_fds

pub close_fds_lem :
    (a : ℕ) (fds : List ℕ) (w : World)
    → (copies a (close_fds fds w).closed ≡ copies a w.closed + copies a fds)
      × ((close_fds fds w).ctx ≡ w.ctx)
      × ((close_fds fds w).input ≡ w.input)
      × ((close_fds fds w).owned ≡ w.owned)
      × ((close_fds fds w).output ≡ w.output)
      × ((close_fds fds w).output_oob ≡ w.output_oob)
unfolding close_fds
close_fds_lem a [] w = (omega arith, refl, refl, refl, refl, refl)
close_fds_lem a (fd ∷ fds) w =
    let (c, ctx, input, owned, output, output_oob) =
      close_fds_lem a fds (record w { closed = fd ∷ w.closed }) in
    (omega (arith, c), ctx, input, owned, output, output_oob)

pub held-close_fds :
    (a : ℕ) (fds : List ℕ) (w : World) → held a (close_fds fds w) ≡ held a w + copies a fds
unfolding held
held-close_fds a fds w = ground (arith, close_fds_lem a fds w)

-- `setFatal` closes what is pending, so it loses no descriptor, and leaves the input alone.
pub held-set_fatal :
    (a : ℕ) (e : Error) (w : World)
    → (held a (set_fatal e w).1 ≡ held a w) × ((set_fatal e w).1.input ≡ w.input)
unfolding held set_fatal
held-set_fatal a e w = ground (
  arith,
  close_fds_lem a w.pending_fds (record w { ctx = record (w.ctx) { fatal_err = some e } }),
)

-- The first error sticks, and what the socket has taken is as before.
pub set_fatal_lem :
    (e : Error) (w : World)
    → w.fatal_err ≡ none
    → ((set_fatal e w).0 ≡ e)
      × ((set_fatal e w).1.fatal_err ≡ some e)
      × ((set_fatal e w).1.output ≡ w.output)
      × ((set_fatal e w).1.output_oob ≡ w.output_oob)
unfolding set_fatal
set_fatal_lem e w alive = ground (
  arith,
  close_fds_lem 0 w.pending_fds (record w { ctx = record (w.ctx) { fatal_err = some e } }),
)

module _ (unix : Unix) where
  open unix use {Scm, parse_scms, parse_rights, oob_space}

  held-collect_fds :
      (a : ℕ) (scms : List Scm) (ret : List ℕ) (w : World)
      → let r = collect_fds unix scms ret w in
        (held a r.1 + copies a r.0.0 ≡ held a w + copies a ret + copies a (scm_fds unix scms))
        × (r.1.input ≡ w.input)
        × ((r.0.1 ≡ none) ⊎ (r.0.0 ≡ []))
  unfolding collect_fds scm_fds
  held-collect_fds a [] ret w = (omega arith, refl, inl refl)
  held-collect_fds a (scm ∷ scms) ret w =
      let fds = (parse_rights scm).0 in
      ground (
        arith,
        held-collect_fds a scms (ret ++ fds) w,
        copies-append a ret fds,
        copies-append a fds [],
        copies-append a fds (scm_fds unix scms),
        held-close_fds a ret w,
        held-close_fds a fds (close_fds ret w),
        close_fds_lem a ret w,
        close_fds_lem a fds (close_fds ret w),
      )

  -- The descriptors of nonempty control data.
  abbrev parsed_fds : List ℕ → List ℕ
  parsed_fds oob =
      if ltb oob_space (length oob)
      then []
      else elim (parse_scms oob) [ none ↦ [] | some scms ↦ scm_fds unix scms ]

  held-get_fds_from_oob :
      (a : ℕ) (oob : List ℕ) (w : World)
      → let r = get_fds_from_oob unix oob w in
        (held a r.1 + copies a r.0.0 ≡ held a w + copies a (parsed_fds oob))
        × (r.1.input ≡ w.input)
        × ((r.0.1 ≡ none) ⊎ (r.0.0 ≡ []))
  unfolding get_fds_from_oob
  held-get_fds_from_oob a oob w = elim (Bool-cases (ltb oob_space (length oob))) [
    | inl long ↦ rw long (refl, refl, inr refl)
    | inr short ↦ elim (Option-cases (parse_scms oob)) [
      | inl e ↦ rw (short, e) (refl, refl, inr refl)
      | inr (scms, e) ↦
          let (h, i, empty) = held-collect_fds a scms [] w in
          rw (short, e) (omega (arith, h), i, empty)
    ]
  ]

  pub held-receive_oob :
      (a : ℕ) (oob : List ℕ) (w : World)
      → let r = receive_oob unix oob w in
        (held a r.1 ≡ held a w + copies a (oob_fds unix oob)) × (r.1.input ≡ w.input)
  unfolding receive_oob queue_fds oob_fds held
  held-receive_oob a [] w = (omega arith, refl)
  held-receive_oob a (c ∷ oob) w =
      let r = get_fds_from_oob unix (c ∷ oob) w in
      ground (arith, held-get_fds_from_oob a (c ∷ oob) w, copies-append a r.1.pending_fds r.0.0)

  -- Whatever a read of some bytes ends in, the descriptors that came with it are held, and the rest
  -- of the input still has the others.
  pub held-read_exact :
      (a : ℕ) (input : List Recv) (need : ℕ) (got : List ℕ) (w : World)
      → let w' = (read_exact unix input need got w).1 in
        held a w' + copies a (input_fds unix w'.input) ≡ held a w + copies a (input_fds unix input)
  unfolding read_exact held input_fds
  held-read_exact a input zero got w = refl
  held-read_exact a [] (suc k) got w = refl
  held-read_exact a (r ∷ rest) (suc k) got w =
      let w' = (receive_oob unix r.oob w).1 in
      ground (
        arith,
        held-receive_oob a r.oob w,
        copies-append a (oob_fds unix r.oob) (input_fds unix rest),
        held-read_exact a rest (suc k - length r.bytes) (got ++ r.bytes) w',
      )
