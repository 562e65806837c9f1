-- ===== src/Connect/Runtime.antt =====
-- What `Connect` of client/context.go uses of the operating system and of Go's library.
use sysc_wayland.Base.{ℕ, Bool, true, false, List, [], ◌∷◌, Option, none, some}

abbrev pub Text : Type 0
Text = List ℕ

-- An error of the system, by its number.
abbrev pub Fault : Type 0
Fault = ℕ

-- The variables of the environment that `Connect` reads.
pub data Var : Type 0 where
  wayland_socket wayland_display xdg_runtime_dir : Var

unfoldable pub is_socket : Var → Bool
is_socket wayland_socket = true
is_socket wayland_display = false
is_socket xdg_runtime_dir = false

-- `"wayland-0"`
abbrev pub wayland_0 : Text
wayland_0 = b'w' ∷ b'a' ∷ b'y' ∷ b'l' ∷ b'a' ∷ b'n' ∷ b'd' ∷ b'-' ∷ b'0' ∷ []

-- A Go int: `natural n` is n, and `negative n` is -(n + 1).
pub data GoInt : Type 0 where
  natural negative : ℕ → GoInt

-- What `net.FileConn` and `net.DialUnix` give: an error, or a connection with its number, whether it
-- is a `*net.UnixConn`, and whether the network of its local address, if it has one, is `unix`.
pub data FileConn : Type 0 where
  refused : Fault → FileConn
  conn : ℕ → Bool → Option Bool → FileConn

-- `LocalAddr() != nil && LocalAddr().Network() == "unix"`
unfoldable pub is_unix : Option Bool → Bool
is_unix none = false
is_unix (some b) = b

-- The answers of the system during one `Connect`: `strconv.Atoi`, whether `os.NewFile` gives a file,
-- `net.FileConn`, the errors of `file.Close` and `os.Unsetenv`, `filepath.IsAbs`,
-- `filepath.Join` and `net.DialUnix`.
pub record Host : Type 0 where
  pub atoi : Text → Option GoInt
  pub new_file : ℕ → Bool
  pub file_conn : ℕ → FileConn
  pub close_error : ℕ → Option Fault
  pub unset_error : Option Fault
  pub is_abs : Text → Bool
  pub join : Text → Text → Text
  pub dial_unix : Text → FileConn
