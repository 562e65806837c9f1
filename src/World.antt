-- ===== src/World.antt =====
-- The state that the client transport works on, and the effect that Go code has on it.
-- `Context` is the struct of client/context.go, `Proxy` the `BaseProxy` of client/common.go with
-- its dynamic type and its handler fields, and `World` adds the Go heap, the kernel's side of the
-- descriptors and the socket.
mod Errors
unfoldable pub use Errors.*
use sysc_wayland.Base.{
  ℕ, zero, suc, ◌+◌, Bool, true, false, List, [], ◌∷◌, ◌++◌, Option, none, some,
}
use sysc_wayland.Base.{◌==◌, if◌then◌else◌, ◌≡◌, refl, arith}

-- The Go type behind a `Proxy` value: the generated types of the packages client, idle,
-- cursorshape, sessionlock and textinput, and any other.
pub data Kind : Type 0 where
  display registry callback compositor shm_pool shm buffer data_offer data_source : Kind
  data_device data_device_manager shell shell_surface surface seat pointer keyboard touch : Kind
  wl_output region subcompositor subsurface fixes idle_notifier idle_notification : Kind
  cursor_shape_manager cursor_shape_device tablet_manager tablet_seat tablet_tool tablet : Kind
  tablet_pad_ring tablet_pad_strip tablet_pad_group tablet_pad session_lock_manager : Kind
  session_lock session_lock_surface text_input text_input_manager : Kind
  other : ℕ → Kind

-- One heap object that embeds `BaseProxy`. `bound` says that its `ctx` field is set (there is one
-- connection), and `handler n` that the handler field of the event with opcode `n` is not nil.
pub record Proxy : Type 0 where
  pub kind : Kind
  pub id : ℕ
  pub bound : Bool
  pub zombie : Bool
  pub handler : ℕ → Bool

-- `&T{}`
abbrev pub new_proxy : Kind → Proxy
new_proxy k = record { kind = k; id = 0; bound = false; zombie = false; handler = λ _. false }

-- The struct `Context`, without the connection and the two scratch buffers. `objects` maps an ID to
-- a pointer, and the end of the Go slice `freeIDs` is the head of `free_ids`.
pub record Context : Type 0 where
  pub objects : List (ℕ × ℕ)
  pub free_ids : List ℕ
  pub current_id : ℕ
  pub fatal_err : Option Error
  pub pending_fds : List ℕ

-- What one call of `ReadMsgUnix` gives: the bytes stored, the control bytes, whether `MSG_CTRUNC`
-- or `MSG_TRUNC` is among the flags, and the error.
pub record Recv : Type 0 where
  pub bytes : List ℕ
  pub oob : List ℕ
  pub truncated : Bool
  pub read_err : Option Error

-- What one write gives: the bytes and the control bytes accepted, `none` for a negative count, and
-- the error.
pub record Sent : Type 0 where
  pub wrote : Option ℕ
  pub wrote_oob : Option ℕ
  pub write_err : Option Error

-- `heap` is read at a pointer, and `next_ref` is the next pointer that `&T{}` gives. `closed` lists
-- the descriptors given to `unix.Close`, and `owned` those given to a handler of the application,
-- both newest first. `input` is what the coming reads will give; behind it the peer has closed the
-- connection. `writes` is how the coming writes will go, behind which they fail; `output` and
-- `output_oob` are the bytes and the control bytes that the socket has accepted. `finished q` is the
-- variable `done` of the `Roundtrip` that waits for the callback `q`.
pub record World : Type 0 where
  pub ctx : Context
  pub open ctx use *
  pub heap : ℕ → Proxy
  pub next_ref : ℕ
  pub closed : List ℕ
  pub owned : List ℕ
  pub input : List Recv
  pub writes : List Sent
  pub output : List ℕ
  pub output_oob : List ℕ
  pub finished : ℕ → Bool

-- A call returns or panics, with the state at that point.
pub data Outcome {ℓ} (A : Type ℓ) : Type ℓ where
  done : A → World → Outcome A
  panicked : Panic → World → Outcome A

abbrev pub M {ℓ} : Type ℓ → Type ℓ
M A = World → Outcome A

module _ {ℓ} {A : Type ℓ} where
  abbrev pub pure : A → M A
  pure a w = done a w

  abbrev pub throw : Panic → M A
  throw p w = panicked p w

  -- The state after the call, however it ends.
  abbrev pub state : Outcome A → World
  state (done a w) = w
  state (panicked p w) = w

infixl 5 ◌>>=◌ ◌>>◌
abbrev pub ◌>>=◌ {ℓ κ} : {A : Type ℓ} {B : Type κ} → M A → (A → M B) → M B
◌>>=◌ m f w = elim (m w) [ done a w' ↦ f a w' | panicked p w' ↦ panicked p w' ]

abbrev pub ◌>>◌ {ℓ κ} : {A : Type ℓ} {B : Type κ} → M A → M B → M B
m >> k = m >>= λ _. k

abbrev pub gets {ℓ} : {A : Type ℓ} → (World → A) → M A
gets f w = done (f w) w

abbrev pub modify : (World → World) → M (Unit {0})
modify f w = done tt (f w)

-- The heap with the object at `p` replaced.
abbrev pub update : (ℕ → Proxy) → ℕ → Proxy → ℕ → Proxy
update f p v q = if p == q then v else f q

-- `BaseProxy.ID`, `SetID`, `SetContext`, `IsZombie` and `MarkZombie`.
unfoldable pub proxy_id : ℕ → World → ℕ
proxy_id p w = (w.heap p).id

unfoldable pub set_id : ℕ → ℕ → World → World
set_id p i w = record w { heap = update w.heap p (record (w.heap p) { id = i }) }

unfoldable pub set_context : ℕ → World → World
set_context p w = record w { heap = update w.heap p (record (w.heap p) { bound = true }) }

unfoldable pub is_zombie : ℕ → World → Bool
is_zombie p w = (w.heap p).zombie

unfoldable pub mark_zombie : ℕ → World → World
mark_zombie p w = record w { heap = update w.heap p (record (w.heap p) { zombie = true }) }

-- `&T{}`: the pointer, and the heap with the new object.
unfoldable pub alloc : Kind → M ℕ
alloc k w =
    done w.next_ref
      (record w { heap = update w.heap w.next_ref (new_proxy k); next_ref = w.next_ref + 1 })

-- A result put behind a call leaves the state alone.
pub state-then_pure {ℓ} :
    {A : Type ℓ} (m : M (Unit {0})) (x : A) (w : World) → state ((m >> pure x) w) ≡ state (m w)
state-then_pure m x w = ground arith
