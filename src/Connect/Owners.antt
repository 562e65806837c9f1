-- ===== src/Connect/Owners.antt =====
-- Who owns the descriptors and connections that `Connect` opens.
use sysc_wayland.Base.{
  ℕ, ◌≡◌, ◌∙◌, ◌⊎◌, refl, ap, true, ◌&&◌, [], ◌∷◌, none, some, Bool-cases, Option-cases, inl, inr,
  arith,
}
use sysc_wayland.Connect.Runtime.{
  Text, wayland_socket, wayland_display, xdg_runtime_dir, is_socket, natural, negative, FileConn,
  refused, conn, is_unix, Host,
}
use sysc_wayland.Connect.{
  Process, Result, failed, ok, system, open_conn, close_conn, close_file, adopt, is_empty,
  unix_conn_from_fd, unset_socket, after_unset, inherit_fd, inherit, dial, dial_address,
  default_address, getenv, bad_socket, connect,
}

-- Of the connections that a call has opened, the one it returns is open, and after a failure none.
pub Owns : Process → Result × Process → Type 0
Owns p (ok c, p') = (p'.opened ≡ c ∷ p.opened) × (p'.shut ≡ p.shut)
Owns p (failed e, p') =
    ((p'.opened ≡ p.opened) × (p'.shut ≡ p.shut))
    ⊎ ((c : ℕ) × (p'.opened ≡ c ∷ p.opened) × (p'.shut ≡ c ∷ p.shut))

module _ (sys : Host) where
  open sys use {atoi, new_file, file_conn, close_error, unset_error, is_abs, join, dial_unix}

  adopt-Owns : (fd : ℕ) (f : FileConn) (p : Process) → Owns p (adopt sys fd f p)
  unfolding adopt Owns open_conn close_conn close_file
  adopt-Owns fd (refused e) p = inl (refl, refl)
  adopt-Owns fd (conn c is_unix_conn network) p = elim (Option-cases (close_error fd)) [
    | inr (e, bad) ↦ rw (bad, adopt) (inr (c, refl, refl))
    | inl fine ↦ elim (Bool-cases (is_unix_conn && is_unix network)) [
      | inl socket ↦ rw (fine, adopt) (rw socket (refl, refl))
      | inr alien ↦ rw (fine, adopt) (rw alien (inr (c, refl, refl)))
    ]
  ]

  unix_conn_from_fd-Owns : (fd : ℕ) (p : Process) → Owns p (unix_conn_from_fd sys fd p)
  unfolding unix_conn_from_fd Owns
  unix_conn_from_fd-Owns fd p = elim (Bool-cases (new_file fd)) [
    | inl file ↦ rw file (adopt-Owns fd (file_conn fd) p)
    | inr nil ↦ rw nil (inl (refl, refl))
  ]

  -- `os.Unsetenv` opens and closes nothing.
  unset_socket-Owns :
      (r : Result) (p p' : Process) → Owns p (r, p') → Owns p (r, unset_socket sys p')
  unfolding unset_socket Owns
  unset_socket-Owns (ok c) p p' h = elim (Option-cases unset_error) [
    | inl fine ↦ rw fine h
    | inr (e, bad) ↦ rw bad h
  ]
  unset_socket-Owns (failed x) p p' h = elim (Option-cases unset_error) [
    | inl fine ↦ rw fine h
    | inr (e, bad) ↦ rw bad h
  ]

  after_unset-Owns :
      (r : Result) (p p' : Process) → Owns p (r, p') → Owns p (after_unset sys (r, p'))
  unfolding after_unset Owns close_conn
  after_unset-Owns (failed x) p p' h = h
  after_unset-Owns (ok c) p p' (opened, shut) = elim (Option-cases unset_error) [
    | inl fine ↦ rw fine (opened, shut)
    | inr (e, bad) ↦ rw bad (inr (c, opened, ap (λ s. c ∷ s) shut))
  ]

  inherit_fd-Owns : (fd : ℕ) (p : Process) → Owns p (inherit_fd sys fd p)
  unfolding inherit_fd
  inherit_fd-Owns fd p =
      let r = unix_conn_from_fd sys fd p in
      after_unset-Owns r.0 p (unset_socket sys r.1)
        (unset_socket-Owns r.0 p r.1 (unix_conn_from_fd-Owns fd p))

  inherit-Owns : (value : Text) (p : Process) → Owns p (inherit sys value p)
  unfolding inherit Owns
  inherit-Owns value p =
      elim (atoi value)
        as (λ x. Owns p (elim x as (λ _. Result × Process) [
          | none ↦ (failed (bad_socket value), p)
          | some (negative n) ↦ (failed (bad_socket value), p)
          | some (natural fd) ↦ inherit_fd sys fd p
        ])) [
          | none ↦ inl (refl, refl)
          | some (negative n) ↦ inl (refl, refl)
          | some (natural fd) ↦ inherit_fd-Owns fd p
        ]

  dial-Owns : (path : Text) (p : Process) → Owns p (dial sys path p)
  unfolding dial Owns open_conn
  dial-Owns path p =
      elim (dial_unix path)
        as (λ x. Owns p (elim x as (λ _. Result × Process) [
          | refused e ↦ (failed (system e), p)
          | conn c is_unix_conn network ↦ (ok c, open_conn c p)
        ])) [ refused e ↦ inl (refl, refl) | conn c is_unix_conn network ↦ (refl, refl) ]

  dial_address-Owns : (addr : Text) (p : Process) → Owns p (dial_address sys addr p)
  unfolding dial_address Owns
  dial_address-Owns addr p = elim (Bool-cases (is_abs addr)) [
    | inl absolute ↦ rw absolute (dial-Owns addr p)
    | inr relative ↦ elim (Bool-cases (is_empty (getenv xdg_runtime_dir p))) [
      | inl missing ↦ rw (relative, missing) (inl (refl, refl))
      | inr found ↦ rw (relative, found) (dial-Owns (join (getenv xdg_runtime_dir p) addr) p)
    ]
  ]

  -- `Connect` owns what it opens, on every path: if it succeeds, it has opened one connection, the one
  -- that it returns, and has closed none; if it fails, it has opened none, or has opened one and
  -- closed just that one.
  pub connect-Owns : (addr : Text) (p : Process) → Owns p (connect sys addr p)
  unfolding connect
  connect-Owns addr p = elim (Bool-cases (is_empty addr)) [
    | inr given ↦ rw given (dial_address-Owns addr p)
    | inl missing ↦ elim (Option-cases (p.env wayland_socket)) [
      | inl unset ↦ rw (missing, unset) (dial_address-Owns (default_address sys p) p)
      | inr (value, set) ↦ rw (missing, set) (inherit-Owns value p)
    ]
  ]

  adopt-closes :
      (fd : ℕ) (f : FileConn) (p : Process)
      → ((adopt sys fd f p).1.closed_files ≡ fd ∷ p.closed_files)
        × ((adopt sys fd f p).1.env ≡ p.env)
  unfolding adopt open_conn close_conn close_file
  adopt-closes fd f p = ground arith

  after_unset-closes :
      (r : Result) (p : Process)
      → ((after_unset sys (r, p)).1.closed_files ≡ p.closed_files)
        × ((after_unset sys (r, p)).1.env ≡ p.env)
  unfolding after_unset close_conn
  after_unset-closes r p = ground arith

  -- What becomes of the descriptor `fd` that WAYLAND_SOCKET names, and of the environment.
  abbrev pub Consumed : ℕ → Process → Process → Type 0
  Consumed fd p p' =
      (p'.closed_files ≡ fd ∷ p.closed_files)
      × (p'.env wayland_display ≡ p.env wayland_display)
      × (p'.env xdg_runtime_dir ≡ p.env xdg_runtime_dir)
      × (unset_error ≡ none → p'.env wayland_socket ≡ none)

  unset_socket-keeps :
      (p : Process)
      → ((unset_socket sys p).closed_files ≡ p.closed_files)
        × ((unset_socket sys p).env wayland_display ≡ p.env wayland_display)
        × ((unset_socket sys p).env xdg_runtime_dir ≡ p.env xdg_runtime_dir)
        × (unset_error ≡ none → (unset_socket sys p).env wayland_socket ≡ none)
  unfolding unset_socket is_socket
  unset_socket-keeps p = elim (Option-cases unset_error) [
    | inl fine ↦ rw fine (refl, refl, refl, λ _. refl)
    | inr (e, bad) ↦ rw bad (refl, refl, refl, λ none_left. cc)
  ]

  inherit_fd-Consumed :
      (fd : ℕ) (p : Process) → new_file fd ≡ true → Consumed fd p (inherit_fd sys fd p).1
  unfolding inherit_fd unix_conn_from_fd
  inherit_fd-Consumed fd p file =
      let r = adopt sys fd (file_conn fd) p in
      let (closed, env) = adopt-closes fd (file_conn fd) p in
      let (closed', display, dir, socket) = unset_socket-keeps r.1 in
      let (closed'', env') = after_unset-closes r.0 (unset_socket sys r.1) in
      rw file (
        closed'' ∙ closed' ∙ closed,
        ap (λ f. f wayland_display) env' ∙ display ∙ ap (λ f. f wayland_display) env,
        ap (λ f. f xdg_runtime_dir) env' ∙ dir ∙ ap (λ f. f xdg_runtime_dir) env,
        λ fine. ap (λ f. f wayland_socket) env' ∙ socket fine,
      )

  -- With no address given and a number in WAYLAND_SOCKET that is a descriptor, `Connect` closes this
  -- descriptor exactly once, whether it succeeds or fails, and removes the variable, unless the
  -- system refuses, so that no later call sees the closed number; no other variable changes.
  pub connect-Consumed :
      (fd : ℕ) (value : Text) (p : Process)
      → p.env wayland_socket ≡ some value
      → atoi value ≡ some (natural fd)
      → new_file fd ≡ true
      → Consumed fd p (connect sys [] p).1
  unfolding connect inherit is_empty
  connect-Consumed fd value p set number file =
      rw (set, connect) (rw (number, inherit) (inherit_fd-Consumed fd p file))
