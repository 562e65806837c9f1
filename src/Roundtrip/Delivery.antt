-- ===== src/Roundtrip/Delivery.antt =====
-- The done event of the callback that `Roundtrip` waits for, from the socket to the closure.
use sysc_wayland.Base.{
  ℕ, zero, suc, ◌^◌, ◌<◌, ◌≡◌, ◌∙◌, refl, ap, sym, Bool, true, false, [], Option, none, some, arith,
  ◌==◌, if◌then◌else◌,
}
use mathlib.Core.List.{append-nil}
use sysc_wayland.World.{World, M, done, callback, is_zombie, mark_zombie}
use sysc_wayland.Wire.{le32, uint32_at, ok}
use sysc_wayland.Wire.RoundTrip.{uint32_at-le32}
use sysc_wayland.Ids.{lookup_proxy}
use sysc_wayland.Ids.Table.{table}
use sysc_wayland.Fatal.{put_back_fd}
use sysc_wayland.Socket.Kernel.{Unix}
use sysc_wayland.Socket.{frame, read_msg}
use sysc_wayland.Socket.Reading.{read_msg-Reads}
use sysc_wayland.Dispatch.Interfaces.{Methods}
use sysc_wayland.Dispatch.{
  recover, is_display, route_fd, handle, deliver, dispatch_message, dispatch,
}
use sysc_wayland.Bindings.Events.{Event}
use sysc_wayland.Bindings.Objects.{has_no_fd, lift, if_handled, call, own, set_handler, ◌>>=◌}
use sysc_wayland.Bindings.Decoders.Callback
use sysc_wayland.Bindings.Requests.Display.{sync}
use sysc_wayland.Bindings.Table
use sysc_wayland.Bindings.Table.{generated}
use sysc_wayland.Bindings.Release.{put_back_heap, put_back_fatal}
use sysc_wayland.Roundtrip.Answers.{update_same}
use sysc_wayland.Roundtrip.{
  set_done, with_done, dispatch_done, destroyed, await, wait, after_sync, roundtrip,
}

module _ (on_event : ℕ → Event → M (Unit {0})) (q serial : ℕ) where
  runs :
      (w : World)
      → serial < 2 ^ 32
      → (w.heap q).handler 0 ≡ true
      → Callback.dispatch (with_done q on_event) q 0 none (le32 serial) w
        ≡ done tt (set_done q true w)
  unfolding Callback.dispatch Callback.done_event ◌>>=◌ lift if_handled call own with_done
  runs w small set =
      let word : uint32_at (le32 serial) 0 ≡ ok serial =
        rw (← append-nil (le32 serial)) (uint32_at-le32 [] [] 0 serial refl small) in
      let mine : (q == q) ≡ true = ground arith in rw (set, word, mine) refl

module _ (unix : Unix) (on_event : ℕ → Event → M (Unit {0})) (foreign : Methods)
    (q serial : ℕ) where
  handled :
      (id : ℕ) (w : World)
      → (w.heap q).kind ≡ callback
      → serial < 2 ^ 32
      → (w.heap q).handler 0 ≡ true
      → handle unix (generated (with_done q on_event) foreign) q id 0 none (le32 serial) w
        ≡ (w.fatal_err, set_done q true w)
  unfolding handle Table.dispatch recover set_done
  handled id w kind small set = rw (kind, handle) (rw (runs on_event q serial w small set) refl)

  delivered :
      (id : ℕ) (fd : Option ℕ) (w : World)
      → (w.heap q).kind ≡ callback
      → is_zombie q w ≡ false
      → serial < 2 ^ 32
      → (w.heap q).handler 0 ≡ true
      → deliver unix (generated (with_done q on_event) foreign) q id 0 fd (le32 serial) w
        ≡ (w.fatal_err, set_done q true (put_back_fd fd w))
  unfolding deliver route_fd Table.has_fd has_no_fd is_display is_zombie
  delivered id fd w kind live small set =
      let w' = put_back_fd fd w in
      let same = put_back_heap fd w in
      let kind' : (w'.heap q).kind ≡ callback = ap (λ h. (h q).kind) same ∙ kind in
      let set' : (w'.heap q).handler 0 ≡ true = ap (λ h. (h q).handler 0) same ∙ set in
      let live' : (w'.heap q).zombie ≡ false = ap (λ h. (h q).zombie) same ∙ live in
      rw (kind, deliver)
        (rw live' (
          handled id w' kind' small set' ∙ ap (λ e. (e, set_done q true w')) (put_back_fatal fd w)))

  -- The state in which the loop starts.
  abbrev waiting : World → World
  waiting v = set_handler q 0 (set_done q false v)

  waiting_heap :
      (v u : World)
      → table u ≡ table (waiting v)
      → (v.heap q).kind ≡ callback
      → is_zombie q v ≡ false
      → ((u.heap q).kind ≡ callback) × (is_zombie q u ≡ false) × ((u.heap q).handler 0 ≡ true)
  unfolding is_zombie set_handler set_done
  waiting_heap v u same kind live =
      let heap : u.heap ≡ (waiting v).heap = ap (λ t. t.3) same in
      let handled_proxy = record (v.heap q) {
        handler = λ k. if k == 0 then true else (v.heap q).handler k;
      } in
      let own : u.heap q ≡ handled_proxy =
        ap (λ f. f q) heap ∙ update_same v.heap q handled_proxy in
      (ap (λ x. x.kind) own ∙ kind, ap (λ x. x.zombie) own ∙ live, ap (λ x. x.handler 0) own)

  done_set : (b : Bool) (w : World) → (set_done q b w).finished q ≡ b
  unfolding set_done
  done_set b w = ground arith

  await_dispatched :
      (fuel : ℕ) (w w' : World)
      → w.finished q ≡ false
      → dispatch_done unix on_event foreign q w ≡ (none, w')
      → w'.finished q ≡ true
      → await unix on_event foreign (suc fuel) q w ≡ some (none, w')
  unfolding await
  await_dispatched zero w w' on e over =
      let r = dispatch_done unix on_event foreign q w in
      let nil : r.0 ≡ none = ap (λ x. x.0) e in
      let over' : r.1.finished q ≡ true = ap (λ x. x.1.finished q) e ∙ over in
      rw (on, nil, over') (ap (λ x. some (none, x.1)) e)
  await_dispatched (suc fuel) w w' on e over =
      let r = dispatch_done unix on_event foreign q w in
      let nil : r.0 ≡ none = ap (λ x. x.0) e in
      let over' : r.1.finished q ≡ true = ap (λ x. x.1.finished q) e ∙ over in
      rw (on, nil, over') (ap (λ x. some (none, x.1)) e)

  dispatched :
      (id : ℕ) (fd : Option ℕ) (w u : World)
      → w.fatal_err ≡ none
      → read_msg unix w ≡ (frame id 0 fd (le32 serial), u)
      → lookup_proxy id u ≡ some q
      → u.fatal_err ≡ none
      → serial < 2 ^ 32
      → ((u.heap q).kind ≡ callback) × (is_zombie q u ≡ false) × ((u.heap q).handler 0 ≡ true)
      → dispatch_done unix on_event foreign q w ≡ (none, set_done q true (put_back_fd fd u))
  unfolding dispatch_done dispatch dispatch_message
  dispatched id fd w u alive read found alive' small (kind, live, set) =
      rw (alive, dispatch)
        (rw (read, found, dispatch_message)
          (delivered id fd u kind live small set
            ∙ ap (λ e. (e, set_done q true (put_back_fd fd u))) alive'))

  -- If `Sync` has returned the callback `q` and the next message on the socket is the done event of
  -- that callback, `Roundtrip` returns nil after this one `Dispatch`, with `done` true, the
  -- callback destroyed, and a descriptor that was taken for the message back at the front of the
  -- queue. The callback is live, and the connection is alive before and after the read.
  pub roundtrip-dispatch :
      (fuel p id : ℕ) (fd : Option ℕ) (w v u : World)
      → sync p w ≡ done (q, none) v
      → (v.heap q).kind ≡ callback
      → is_zombie q v ≡ false
      → v.fatal_err ≡ none
      → read_msg unix (waiting v) ≡ (frame id 0 fd (le32 serial), u)
      → lookup_proxy id u ≡ some q
      → u.fatal_err ≡ none
      → serial < 2 ^ 32
      → roundtrip unix on_event foreign (suc fuel) p w
        ≡ some (done none (mark_zombie q (set_done q true (put_back_fd fd u))))
  unfolding roundtrip after_sync wait set_handler set_done destroyed
  roundtrip-dispatch fuel p id fd w v u synced kind live alive read found alive' small =
      let same : table u ≡ table (waiting v) =
        ap (λ r. table r.1) (sym read) ∙ (read_msg-Reads unix (waiting v)).objects in
      ap (after_sync unix on_event foreign (suc fuel)) synced
      ∙ ap (destroyed q) (
          await_dispatched fuel (waiting v) _ (done_set false v)
            (dispatched id fd (waiting v) u alive read found alive' small
              (waiting_heap v u same kind live))
            (done_set true (put_back_fd fd u)))
