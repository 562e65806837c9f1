-- ===== src/Bindings/Requests.antt =====
-- The generated requests: the frame that the body builds goes to `WriteMsg`. A request that creates an
-- object registers it first, and sends its ID. One file for each type.
pub mod Display
pub mod Registry
pub mod Callback
pub mod Compositor
pub mod ShmPool
pub mod Shm
pub mod Buffer
pub mod DataOffer
pub mod DataSource
pub mod DataDevice
pub mod DataDeviceManager
pub mod Shell
pub mod ShellSurface
pub mod Surface
pub mod Seat
pub mod Pointer
pub mod Keyboard
pub mod Touch
pub mod Output
pub mod Region
pub mod Subcompositor
pub mod Subsurface
pub mod Fixes
pub mod IdleNotifier
pub mod IdleNotification
pub mod CursorShapeManager
pub mod CursorShapeDevice
pub mod TabletManager
pub mod TabletSeat
pub mod TabletTool
pub mod Tablet
pub mod TabletPadRing
pub mod TabletPadStrip
pub mod TabletPadGroup
pub mod TabletPad
pub mod SessionLockManager
pub mod SessionLock
pub mod SessionLockSurface
pub mod TextInput
pub mod TextInputManager
use sysc_wayland.Base.{ℕ, List, [], ◌∷◌, Option, none, some}
use sysc_wayland.World.{
  World, Kind, callback, registry, surface, region, idle_notification, Error, Outcome, done,
  panicked, M, gets, modify, proxy_id, mark_zombie, state,
}
use sysc_wayland.Wire.{Checked, ok, fail, Arg, word, text, request}
use sysc_wayland.Ids.{new_object}
use sysc_wayland.Send.{write_msg}
use sysc_wayland.Bindings.Objects.{lift, ◌>>=◌, ◌>>◌}

-- `Context().WriteMsg(_reqBuf, oob)`
unfoldable pub write : List ℕ → List ℕ → M (Option Error)
write bytes oob w = let (err, w') = write_msg bytes oob w in done err w'

unfoldable pub send : ℕ → ℕ → List Arg → List ℕ → M (Option Error)
send p opcode args oob = do
  id ← gets (proxy_id p)
  bytes ← lift (request id opcode args)
  write bytes oob

-- A request with a new_id argument. The arguments depend on the new object's ID.
unfoldable pub create : Kind → ℕ → ℕ → (ℕ → World → List Arg) → M (ℕ × Option Error)
create kind p opcode args = do
  q ← new_object kind
  id ← gets (proxy_id q)
  words ← gets (args id)
  err ← send p opcode words []
  gets (λ w. (q, err))

-- `defer x.MarkZombie()`, which runs also on a panic.
unfoldable pub deferred {ℓ} : {A : Type ℓ} → ℕ → M A → M A
deferred p m w = elim (m w) [
  | done x w' ↦ done x (mark_zombie p w')
  | panicked e w' ↦ panicked e (mark_zombie p w')
]

-- An object argument that may be nil, and a string argument that may be nil.
unfoldable pub object : Option ℕ → World → Arg
object none w = word 0
object (some q) w = word (proxy_id q w)

unfoldable pub nullable : Option (List ℕ) → Arg
nullable none = word 0
nullable (some s) = text s

-- `Destroy` of the types without a destructor request: display, registry, callback, compositor.
unfoldable pub destroy_quietly : ℕ → M (Option Error)
destroy_quietly p w = done none (mark_zombie p w)
