-- ===== src/Bindings/Release.antt =====
-- The event delete_id of wl_display, from the socket to the table of objects.
use sysc_wayland.Base.{
  ℕ, ◌<◌, ◌^◌, ◌≡◌, ◌∙◌, refl, ap, Bool, true, false, not, ◌&&◌, List, [], Option, none, some,
  arith,
}
use mathlib.Core.List.{append-nil}
use sysc_wayland.World.{World, display, done, M, is_zombie}
use sysc_wayland.Wire.{le32, uint32_at, ok}
use sysc_wayland.Wire.RoundTrip.{uint32_at-le32}
use sysc_wayland.Ids.{lookup_proxy, delete_id}
use sysc_wayland.Fatal.{put_back_fd}
use sysc_wayland.Socket.Kernel.{Unix}
use sysc_wayland.Socket.{frame, read_msg}
use sysc_wayland.Dispatch.Interfaces.{Methods}
use sysc_wayland.Dispatch.{
  recover, is_display, route_fd, handle, deliver, dispatch_message, dispatch,
}
use sysc_wayland.Bindings.Events.{Event}
use sysc_wayland.Bindings.Objects.{lift, if_handled, ◌>>=◌}
use sysc_wayland.Bindings.Objects.{has_no_fd}
use sysc_wayland.Bindings.Decoders.Display
use sysc_wayland.Bindings.Table
use sysc_wayland.Bindings.Table.{generated}

delete_id_heap : (id : ℕ) (w : World) → (delete_id id w).heap ≡ w.heap
unfolding delete_id
delete_id_heap id w = ground arith

pub put_back_heap : (fd : Option ℕ) (w : World) → (put_back_fd fd w).heap ≡ w.heap
unfolding put_back_fd
put_back_heap none w = refl
put_back_heap (some fd) w = refl

pub put_back_fatal : (fd : Option ℕ) (w : World) → (put_back_fd fd w).fatal_err ≡ w.fatal_err
unfolding put_back_fd
put_back_fatal none w = refl
put_back_fatal (some fd) w = refl

pub and_false : (b : Bool) → (b && false) ≡ false
and_false true = refl
and_false false = refl

still :
    (fd : Option ℕ) (id : ℕ) (w : World)
    → w.fatal_err ≡ none
    → (delete_id id (put_back_fd fd w)).fatal_err ≡ none
unfolding delete_id put_back_fd
still none id w alive = ground arith
still (some fd) id w alive = ground arith

module _ (on_event : ℕ → Event → M (Unit {0})) where
  unhandled :
      (p id : ℕ) (w : World)
      → id < 2 ^ 32
      → (w.heap p).handler 1 ≡ false
      → Display.dispatch on_event p 1 none (le32 id) w ≡ done tt (delete_id id w)
  unfolding Display.dispatch Display.delete_id_event ◌>>=◌ lift if_handled
  unhandled p id w small nil =
      let word : uint32_at (le32 id) 0 ≡ ok id =
        rw (← append-nil (le32 id)) (uint32_at-le32 [] [] 0 id refl small) in
      let quiet : ((delete_id id w).heap p).handler 1 ≡ false =
        ap (λ h. (h p).handler 1) (delete_id_heap id w) ∙ nil in
      rw word (rw quiet refl)

module _ (unix : Unix) (on_event : ℕ → Event → M (Unit {0})) (foreign : Methods) where
  handled :
      (p id : ℕ) (w : World)
      → (w.heap p).kind ≡ display
      → id < 2 ^ 32
      → (w.heap p).handler 1 ≡ false
      → handle unix (generated on_event foreign) p 1 1 none (le32 id) w
        ≡ ((delete_id id w).fatal_err, delete_id id w)
  unfolding handle Table.dispatch recover
  handled p id w kind small nil = rw (kind, handle) (rw (unhandled on_event p id w small nil) refl)

  -- A display takes no descriptor, and gets its events also when it is destroyed.
  pub deliver-display :
      (p sender opcode : ℕ) (fd : Option ℕ) (body : List ℕ) (w : World)
      → (w.heap p).kind ≡ display
      → deliver unix (generated on_event foreign) p sender opcode fd body w
        ≡ handle unix (generated on_event foreign) p sender opcode none body (put_back_fd fd w)
  unfolding deliver route_fd Table.has_fd has_no_fd is_display
  deliver-display p sender opcode fd body w kind =
      let w' = put_back_fd fd w in
      let kind' : (w'.heap p).kind ≡ display = ap (λ h. (h p).kind) (put_back_heap fd w) ∙ kind in
      let alive : (is_zombie p w' && not (is_display (w'.heap p).kind)) ≡ false =
        rw kind' (and_false _) in
      rw (kind, deliver) (rw alive refl)

  delivered :
      (p id : ℕ) (fd : Option ℕ) (w : World)
      → (w.heap p).kind ≡ display
      → id < 2 ^ 32
      → (w.heap p).handler 1 ≡ false
      → deliver unix (generated on_event foreign) p 1 1 fd (le32 id) w
        ≡ ((delete_id id (put_back_fd fd w)).fatal_err, delete_id id (put_back_fd fd w))
  delivered p id fd w kind small nil =
      let w' = put_back_fd fd w in
      let same = put_back_heap fd w in
      deliver-display p 1 1 fd (le32 id) w kind
      ∙ handled p id w' (ap (λ h. (h p).kind) same ∙ kind) small
          (ap (λ h. (h p).handler 1) same ∙ nil)

  -- A delete_id that arrives on the display, whether the application has destroyed the display or
  -- not, releases its ID in the table; a descriptor that was taken for it goes back to the front of
  -- the queue, and `Dispatch` returns nil. No handler is set for the event, and the connection is
  -- alive before and after the read.
  pub dispatch-delete_id :
      (p id : ℕ) (fd : Option ℕ) (w w₁ : World)
      → w.fatal_err ≡ none
      → read_msg unix w ≡ (frame 1 1 fd (le32 id), w₁)
      → lookup_proxy 1 w₁ ≡ some p
      → (w₁.heap p).kind ≡ display
      → id < 2 ^ 32
      → (w₁.heap p).handler 1 ≡ false
      → w₁.fatal_err ≡ none
      → dispatch unix (generated on_event foreign) w ≡ (none, delete_id id (put_back_fd fd w₁))
  unfolding dispatch dispatch_message
  dispatch-delete_id p id fd w w₁ alive read found kind small nil alive₁ =
      rw (alive, dispatch)
        (rw (read, found, dispatch_message)
          (delivered p id fd w₁ kind small nil
            ∙ ap (λ e. (e, delete_id id (put_back_fd fd w₁))) (still fd id w₁ alive₁)))
