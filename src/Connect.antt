-- ===== src/Connect.antt =====
-- `Connect` and `unixConnFromFD` of client/context.go. What they ask of the operating system and of
-- the packages os, net, strconv and filepath is a parameter.
pub mod Runtime
pub mod Owners
pub mod Start
use sysc_wayland.Base.{
  ℕ, Bool, true, false, not, ◌&&◌, List, [], ◌∷◌, Option, none, some, if◌then◌else◌,
}
use Runtime.{
  Text, Fault, Var, wayland_socket, wayland_display, xdg_runtime_dir, is_socket, wayland_0, GoInt,
  natural, negative, FileConn, refused, conn, is_unix, Host,
}

-- The part of the process that `Connect` works on: its environment, the connections that it has
-- opened, those that it has closed, and the descriptors that it has closed, newest first.
pub record Process : Type 0 where
  pub env : Var → Option Text
  pub opened : List ℕ
  pub shut : List ℕ
  pub closed_files : List ℕ

-- The errors of `Connect`, and those that the system has reported.
pub data Failure : Type 0 where
  system : Fault → Failure
  invalid_descriptor not_unix no_runtime_dir : Failure
  bad_socket : Text → Failure
  joined : Fault → Option Fault → Failure
  socket_env : Failure → Option Fault → Failure

pub data Result : Type 0 where
  failed : Failure → Result
  ok : ℕ → Result

unfoldable pub open_conn : ℕ → Process → Process
open_conn c p = record p { opened = c ∷ p.opened }

-- `conn.Close()`, whose error is ignored, and `file.Close()`.
unfoldable pub close_conn : ℕ → Process → Process
close_conn c p = record p { shut = c ∷ p.shut }

unfoldable pub close_file : ℕ → Process → Process
close_file fd p = record p { closed_files = fd ∷ p.closed_files }

-- `os.Getenv`
unfoldable pub getenv : Var → Process → Text
getenv v p = elim (p.env v) [ none ↦ [] | some t ↦ t ]

unfoldable pub is_empty : Text → Bool
is_empty [] = true
is_empty (c ∷ t) = false

module _ (sys : Host) where
  open sys use {atoi, new_file, file_conn, close_error, unset_error, is_abs, join, dial_unix}

  -- `unixConnFromFD` once `net.FileConn` has come back: the file is closed in any case.
  unfoldable pub adopt : ℕ → FileConn → Process → Result × Process
  adopt fd (refused e) p = (failed (joined e (close_error fd)), close_file fd p)
  adopt fd (conn c is_unix_conn network) p =
      let p' = close_file fd (open_conn c p) in
      elim (close_error fd) [
        | some e ↦ (failed (system e), close_conn c p')
        | none ↦
            if is_unix_conn && is_unix network
            then (ok c, p')
            else (failed not_unix, close_conn c p')
      ]

  unfoldable pub unix_conn_from_fd : ℕ → Process → Result × Process
  unix_conn_from_fd fd p =
      if not (new_file fd) then (failed invalid_descriptor, p) else adopt fd (file_conn fd) p

  -- `os.Unsetenv("WAYLAND_SOCKET")`
  unfoldable pub unset_socket : Process → Process
  unset_socket p = elim unset_error [
    | some e ↦ p
    | none ↦ record p { env = λ v. if is_socket v then none else p.env v }
  ]

  -- `Connect` behind the two calls.
  unfoldable pub after_unset : Result × Process → Result × Process
  after_unset (failed e, p) = (failed (socket_env e unset_error), p)
  after_unset (ok c, p) = elim unset_error [
    | some e ↦ (failed (system e), close_conn c p)
    | none ↦ (ok c, p)
  ]

  -- The descriptor that WAYLAND_SOCKET names.
  unfoldable pub inherit_fd : ℕ → Process → Result × Process
  inherit_fd fd p = let (r, p') = unix_conn_from_fd fd p in after_unset (r, unset_socket p')

  unfoldable pub inherit : Text → Process → Result × Process
  inherit value p = elim (atoi value) [
    | none ↦ (failed (bad_socket value), p)
    | some (negative n) ↦ (failed (bad_socket value), p)
    | some (natural fd) ↦ inherit_fd fd p
  ]

  unfoldable pub dial : Text → Process → Result × Process
  dial path p = elim (dial_unix path) [
    | refused e ↦ (failed (system e), p)
    | conn c is_unix_conn network ↦ (ok c, open_conn c p)
  ]

  -- The end of `Connect`, with the address.
  unfoldable pub dial_address : Text → Process → Result × Process
  dial_address addr p =
      if is_abs addr
      then dial addr p
      else if is_empty (getenv xdg_runtime_dir p)
      then (failed no_runtime_dir, p)
      else dial (join (getenv xdg_runtime_dir p) addr) p

  -- `addr = os.Getenv("WAYLAND_DISPLAY")`, or else `wayland-0`.
  unfoldable pub default_address : Process → Text
  default_address p =
      if is_empty (getenv wayland_display p) then wayland_0 else getenv wayland_display p

  -- `Connect`, up to the new `Display` on the connection.
  unfoldable pub connect : Text → Process → Result × Process
  connect addr p =
      if is_empty addr
      then elim (p.env wayland_socket) [
        | some value ↦ inherit value p
        | none ↦ dial_address (default_address p) p
      ]
      else dial_address addr p
