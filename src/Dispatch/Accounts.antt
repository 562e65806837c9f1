-- ===== src/Dispatch/Accounts.antt =====
-- Where the descriptors go in `Dispatch` of client/context.go.
use sysc_wayland.Base.{
  ℕ, ◌+◌, ◌≡◌, ◌∙◌, refl, ap, Bool, true, false, not, ◌&&◌, List, Option, none, some, copies, arith,
  Bool-cases, Option-cases, inl, inr,
}
use sysc_wayland.World.{
  unable_to_read, World, Kind, Error, Outcome, done, panicked, M, is_zombie, is_read_timeout,
}
use sysc_wayland.Ids.{lookup_proxy}
use sysc_wayland.Fatal.{close_received_fd, put_back_fd}
use sysc_wayland.Socket.Kernel.{Unix}
use sysc_wayland.Socket.{Message, error, frame, read_msg}
use sysc_wayland.Socket.Descriptors.{held-set_fatal}
use sysc_wayland.Socket.Accounts.{total, opt_fd, message_fds, read_msg-Accounts}
use sysc_wayland.Dispatch.Interfaces.{Methods}
use sysc_wayland.Dispatch.{
  sticky, recover, is_display, route_fd, absorb, handle, deliver, dispatch_message, dispatch,
}

abbrev ask : Option (ℕ → Bool) → ℕ → Bool
ask none n = false
ask (some f) n = f n

clash : (f g : ℕ → Bool) (n : ℕ) → some f ≡ some g → f n ≡ true → g n ≡ false → ⊥
clash f g n e t u = let same : f n ≡ g n = ap (λ o. ask o n) e in cc

module _ (unix : Unix) where
  -- A method that is given a descriptor has taken it when it returns, and has not when it panics.
  abbrev pub Takes : ℕ → Option ℕ → World → Outcome (Unit {0}) → Type 0
  Takes a fd w (done _ w') = total unix a w' ≡ total unix a w + copies a (opt_fd fd)
  Takes a fd w (panicked p w') = total unix a w' ≡ total unix a w

  -- What the accounts ask of the methods of the objects.
  pub record AreCareful (methods : Methods) : Type 0 where
    pub dispatches :
        (a : ℕ) (kind : Kind) (m : ℕ → ℕ → Option ℕ → List ℕ → M (Unit {0}))
        → methods.dispatch kind ≡ some m
        → (p opcode : ℕ) (fd : Option ℕ) (body : List ℕ) (w : World) → ((w.heap p).kind ≡ kind)
        → ((f : ℕ → Bool) → methods.has_fd kind ≡ some f → f opcode ≡ false → fd ≡ none)
        → Takes a fd w (m p opcode fd body w)
    pub absorbs :
        (a : ℕ) (kind : Kind) (m : ℕ → ℕ → List ℕ → M (Unit {0}))
        → methods.absorb_new_ids kind ≡ some m
        → (p opcode : ℕ) (body : List ℕ) (w : World) → Takes a none w (m p opcode body w)

  pub close_received_fd-total :
      (a : ℕ) (fd : Option ℕ) (w : World)
      → total unix a (close_received_fd fd w) ≡ total unix a w + copies a (opt_fd fd)
  unfolding close_received_fd total
  close_received_fd-total a none w = omega arith
  close_received_fd-total a (some fd) w = omega arith

  put_back_fd-total :
      (a : ℕ) (fd : Option ℕ) (w : World)
      → total unix a (put_back_fd fd w) ≡ total unix a w + copies a (opt_fd fd)
  unfolding put_back_fd total
  put_back_fd-total a none w = omega arith
  put_back_fd-total a (some fd) w = omega arith

  sticky-total : (a : ℕ) (e : Error) (w : World) → total unix a (sticky e w).1 ≡ total unix a w
  unfolding sticky total
  sticky-total a e w = ground (arith, held-set_fatal a e w)

  recover-total :
      (a sender opcode : ℕ) (fd : Option ℕ) (w : World) (o : Outcome (Unit {0}))
      → Takes a fd w o
      → total unix a (recover sender opcode fd o).1 ≡ total unix a w + copies a (opt_fd fd)
  unfolding recover
  recover-total a sender opcode fd w (done _ w') h = h
  recover-total a sender opcode fd w (panicked p w') h =
      sticky-total a _ (close_received_fd fd w')
      ∙ close_received_fd-total a fd w'
      ∙ ap (λ n. n + copies a (opt_fd fd)) h

  put_back_fd_heap : (fd : Option ℕ) (w : World) → (put_back_fd fd w).heap ≡ w.heap
  unfolding put_back_fd
  put_back_fd_heap none w = refl
  put_back_fd_heap (some fd) w = refl

  module _ (methods : Methods) (careful : AreCareful methods) where
    absorb-total :
        (a p sender opcode : ℕ) (fd : Option ℕ) (body : List ℕ) (w : World)
        → total unix a (absorb unix methods p sender opcode fd body w).1
          ≡ total unix a w + copies a (opt_fd fd)
    unfolding absorb
    absorb-total a p sender opcode fd body w =
        elim (Option-cases (methods.absorb_new_ids (w.heap p).kind)) [
          | inl e ↦ rw (e, absorb) (close_received_fd-total a fd w)
          | inr (m, e) ↦
              rw (e, absorb)
                (recover-total a sender opcode none (close_received_fd fd w) _
                    (careful.absorbs a (w.heap p).kind m e p opcode body (close_received_fd fd w))
                  ∙ omega (arith, close_received_fd-total a fd w))
        ]

    -- The descriptor that reaches a method is one that the method's own interface asks for.
    abbrev IsRouted : Kind → ℕ → Option ℕ → Type 0
    IsRouted kind opcode fd =
        (f : ℕ → Bool) → methods.has_fd kind ≡ some f → f opcode ≡ false → fd ≡ none

    handle-total :
        (a p sender opcode : ℕ) (fd : Option ℕ) (body : List ℕ) (w : World)
        → IsRouted (w.heap p).kind opcode fd
        → total unix a (handle unix methods p sender opcode fd body w).1
          ≡ total unix a w + copies a (opt_fd fd)
    unfolding handle
    handle-total a p sender opcode fd body w routed =
        elim (Option-cases (methods.dispatch (w.heap p).kind)) [
          | inl e ↦
              rw (e, handle)
                (sticky-total a _ (close_received_fd fd w) ∙ close_received_fd-total a fd w)
          | inr (m, e) ↦
              rw (e, handle)
                (recover-total a sender opcode fd w _
                  (careful.dispatches a (w.heap p).kind m e p opcode fd body w refl routed))
        ]

    route_fd_lem :
        (a : ℕ) (kind : Kind) (opcode : ℕ) (fd : Option ℕ) (w : World)
        → let (fd', w') = route_fd unix methods kind opcode fd w in
          (total unix a w' + copies a (opt_fd fd') ≡ total unix a w + copies a (opt_fd fd))
          × IsRouted kind opcode fd'
          × (w'.heap ≡ w.heap)
    unfolding route_fd
    route_fd_lem a kind opcode fd w = elim (Option-cases (methods.has_fd kind)) [
      | inl e ↦ rw (e, route_fd) (refl, (λ f g h. cc), refl)
      | inr (f, e) ↦ elim (Bool-cases (f opcode)) [
        | inl carries ↦
            rw (e, route_fd)
              (rw carries (refl, (λ g h i. absurd (clash f g opcode h carries i)), refl))
        | inr plain ↦
            rw (e, route_fd)
              (rw plain
                (omega (arith, put_back_fd-total a fd w), (λ g h i. refl), put_back_fd_heap fd w))
      ]
    ]

    deliver-total :
        (a p sender opcode : ℕ) (fd : Option ℕ) (body : List ℕ) (w : World)
        → total unix a (deliver unix methods p sender opcode fd body w).1
          ≡ total unix a w + copies a (opt_fd fd)
    unfolding deliver
    deliver-total a p sender opcode fd body w =
        let (fd', w') = route_fd unix methods (w.heap p).kind opcode fd w in
        let (sum, routed, heap) = route_fd_lem a (w.heap p).kind opcode fd w in
        let routed' : IsRouted (w'.heap p).kind opcode fd' = rw heap routed in
        elim (Bool-cases (is_zombie p w' && not (is_display (w'.heap p).kind))) [
          | inl zombie ↦ rw zombie (absorb-total a p sender opcode fd' body w' ∙ sum)
          | inr live ↦ rw live (handle-total a p sender opcode fd' body w' routed' ∙ sum)
        ]

    dispatch_message-total :
        (a : ℕ) (m : Message) (w : World)
        → total unix a (dispatch_message unix methods (m, w)).1
          ≡ total unix a w + copies a (message_fds m)
    unfolding dispatch_message
    dispatch_message-total a (error e) w = elim (Bool-cases (is_read_timeout e)) [
      | inl idle ↦ rw idle (omega arith)
      | inr bad ↦ rw bad (omega (arith, sticky-total a (unable_to_read e) w))
    ]
    dispatch_message-total a (frame sender opcode fd body) w =
        elim (Option-cases (lookup_proxy sender w)) [
          | inl e ↦
              rw (e, dispatch_message)
                (sticky-total a _ (close_received_fd fd w) ∙ close_received_fd-total a fd w)
          | inr (p, e) ↦ rw (e, dispatch_message) (deliver-total a p sender opcode fd body w)
        ]

    -- One `Dispatch`, however it ends: each descriptor that was pending or arrives, as far as the
    -- control message parser reports it, is pending, has been closed or has been handed to the
    -- application afterwards, and none twice. It is assumed that the methods of the objects take a
    -- descriptor that they are given when they return, and leave it when they panic.
    pub dispatch-total :
        (a : ℕ) (w : World) → total unix a (dispatch unix methods w).1 ≡ total unix a w
    unfolding dispatch total
    dispatch-total a w = elim (Option-cases w.fatal_err) [
      | inr (e, f) ↦ rw (f, dispatch) refl
      | inl f ↦
          rw (f, dispatch)
            (dispatch_message-total a (read_msg unix w).0 (read_msg unix w).1
              ∙ read_msg-Accounts unix a w)
    ]
