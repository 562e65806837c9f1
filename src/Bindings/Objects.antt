-- ===== src/Bindings/Objects.antt =====
-- What the generated decoders share: handler fields, object and new_id arguments.
use sysc_wayland.Base.{
  ℕ, ◌+◌, Bool, true, false, not, ◌&&◌, ◌∷◌, Option, none, some, ◌==◌, if◌then◌else◌,
}
use sysc_wayland.World.{
  World, Kind, display, registry, callback, compositor, shm_pool, shm, buffer, data_offer,
  data_source, data_device, data_device_manager, shell, shell_surface, surface, seat, pointer,
  keyboard, touch, wl_output, region, subcompositor, subsurface, fixes, idle_notifier,
  idle_notification, cursor_shape_manager, cursor_shape_device, tablet_manager, tablet_seat,
  tablet_tool, tablet, tablet_pad_ring, tablet_pad_strip, tablet_pad_group, tablet_pad,
  session_lock_manager, session_lock, session_lock_surface, text_input, text_input_manager, other,
  M, done, panicked, pure, gets, modify, is_zombie, mark_zombie, update,
}
use sysc_wayland.Wire.{Checked, ok, fail}
use sysc_wayland.Ids.{lookup_proxy, new_object_with_id}
use sysc_wayland.Fatal.{close_received_fd}
use sysc_wayland.Bindings.Events.{Event}

-- One step of a method after another.
infixl 5 ◌>>=◌ ◌>>◌
unfoldable pub ◌>>=◌ {ℓ κ} : {A : Type ℓ} {B : Type κ} → M A → (A → M B) → M B
◌>>=◌ m f w = elim (m w) [ done a w' ↦ f a w' | panicked p w' ↦ panicked p w' ]

abbrev pub ◌>>◌ {ℓ κ} : {A : Type ℓ} {B : Type κ} → M A → M B → M B
m >> k = m >>= λ _. k

-- A decoder's panic is a panic of the call.
unfoldable pub lift {ℓ} : {A : Type ℓ} → Checked A → M A
lift (ok a) w = done a w
lift (fail p) w = panicked p w

-- `if i.xHandler == nil { return }` in front of the rest.
unfoldable pub if_handled : ℕ → ℕ → M (Unit {0}) → M (Unit {0})
if_handled p n m w = if (w.heap p).handler n then m w else done tt w

-- The same where the event carries a descriptor, which is closed if there is no handler.
unfoldable pub if_handled_fd : ℕ → ℕ → Option ℕ → M (Unit {0}) → M (Unit {0})
if_handled_fd p n fd m w = if (w.heap p).handler n then m w else done tt (close_received_fd fd w)

-- A handler that returns has taken the descriptor of its event.
unfoldable pub own : Option ℕ → World → World
own none w = w
own (some fd) w = record w { owned = fd ∷ w.owned }

-- `i.xHandler(e)`, where the event `e` carries `fd`.
unfoldable pub call : (ℕ → Event → M (Unit {0})) → ℕ → Event → Option ℕ → M (Unit {0})
call on_event p e fd = do on_event p e; modify (own fd)

-- The type assertion of a proxy to the Go type of `kind`: each type has a number of its own.
unfoldable pub type_number : Kind → ℕ
type_number display = 0
type_number registry = 1
type_number callback = 2
type_number compositor = 3
type_number shm_pool = 4
type_number shm = 5
type_number buffer = 6
type_number data_offer = 7
type_number data_source = 8
type_number data_device = 9
type_number data_device_manager = 10
type_number shell = 11
type_number shell_surface = 12
type_number surface = 13
type_number seat = 14
type_number pointer = 15
type_number keyboard = 16
type_number touch = 17
type_number wl_output = 18
type_number region = 19
type_number subcompositor = 20
type_number subsurface = 21
type_number fixes = 22
type_number idle_notifier = 23
type_number idle_notification = 24
type_number cursor_shape_manager = 25
type_number cursor_shape_device = 26
type_number tablet_manager = 27
type_number tablet_seat = 28
type_number tablet_tool = 29
type_number tablet = 30
type_number tablet_pad_ring = 31
type_number tablet_pad_strip = 32
type_number tablet_pad_group = 33
type_number tablet_pad = 34
type_number session_lock_manager = 35
type_number session_lock = 36
type_number session_lock_surface = 37
type_number text_input = 38
type_number text_input_manager = 39
type_number (other n) = 40 + n

unfoldable pub is_kind : Kind → Kind → Bool
is_kind k k' = type_number k == type_number k'

-- `if x, ok := i.Context().GetProxy(id).(*T); ok && !x.IsZombie()`
unfoldable pub find_live : Kind → ℕ → World → Option ℕ
find_live kind id w = elim (lookup_proxy id w) [
  | none ↦ none
  | some p ↦ if is_kind kind (w.heap p).kind && not (is_zombie p w) then some p else none
]

-- A new_id argument of an event: the live object at the ID, or else a new one unless the ID is 0.
unfoldable pub introduced : Kind → ℕ → Option ℕ → M (Option ℕ)
introduced kind id (some p) = pure (some p)
introduced kind id none =
    if id == 0 then pure none else (new_object_with_id kind id >>= λ p. pure (some p))

unfoldable pub introduce : Kind → ℕ → M (Option ℕ)
introduce kind id = do live ← gets (find_live kind id); introduced kind id live

-- One case of `AbsorbNewIDs`.
unfoldable pub absorb_new_id : Kind → ℕ → M (Unit {0})
absorb_new_id kind id =
    if id == 0 then pure tt else (new_object_with_id kind id >>= λ q. modify (mark_zombie q))

-- `HasFD` of a type none of whose events carries a descriptor.
unfoldable pub has_no_fd : ℕ → Bool
has_no_fd opcode = false

-- `SetXHandler(f)` for the event with opcode `n`, with an `f` that is not nil.
unfoldable pub set_handler : ℕ → ℕ → World → World
set_handler p n w = record w {
  heap =
      update w.heap p
        (record (w.heap p) { handler = λ k. if k == n then true else (w.heap p).handler k });
}
