-- ===== src/Bindings/Taking.antt =====
-- Events that carry a descriptor, and the decoders that are given one.
use sysc_wayland.Base.{
  ℕ, ◌+◌, ◌≡◌, ◌∙◌, refl, ap, sym, Bool, false, List, Option, none, some, ◌==◌, copies, arith,
  Bool-cases, inl, inr, ==_iff,
}
use mathlib.Core.Path.{subst}
use sysc_wayland.World.{World, Outcome, done, panicked, M, state}
use sysc_wayland.Wire.{Checked, ok, fail, uint32_at, string_at}
use sysc_wayland.Socket.Kernel.{Unix}
use sysc_wayland.Socket.Descriptors.{held}
use sysc_wayland.Socket.Accounts.{total, opt_fd}
use sysc_wayland.Dispatch.Accounts.{close_received_fd-total, Takes}
use sysc_wayland.Bindings.Events.{Event}
use sysc_wayland.Bindings.Objects.{has_no_fd, lift, if_handled_fd, call, own, ◌>>=◌}
use sysc_wayland.Bindings.Decoders.DataSource
use sysc_wayland.Bindings.Decoders.Keyboard
use sysc_wayland.Bindings.Keeps.{Keeps}
use sysc_wayland.Bindings.Keeps.Totals.{SameTotals, SameTotals-IsFrame}
use sysc_wayland.Bindings.Keeps.Core.{data_source-Keeps}
use sysc_wayland.Bindings.Keeps.Input.{keyboard-Keeps}

module _ (unix : Unix) where
  -- The call takes the descriptor when it returns, and leaves it when it panics.
  pub record IsTaking (fd : Option ℕ) (m : M (Unit {0})) : Type 0 where
    pub takes : (a : ℕ) (w : World) → Takes unix a fd w (m w)

  pub IsTaking-kept : {m : M (Unit {0})} → Keeps (SameTotals unix) m → IsTaking none m
  IsTaking-kept {m} h = record { takes = λ a w. go a w (m w) (h.keeps w a) }
    where
      go :
          (a : ℕ) (w : World) (o : Outcome (Unit {0}))
          → total unix a (state o) ≡ total unix a w
          → Takes unix a none w o
      go a w (done x w') h = omega arith
      go a w (panicked p w') h = h

  IsTaking-read {κ} :
      {A : Type κ} (c : Checked A) (fd : Option ℕ) {f : A → M (Unit {0})}
      → ((x : A) → IsTaking fd (f x))
      → IsTaking fd (lift c >>= f)
  unfolding lift ◌>>=◌
  IsTaking-read (ok x) fd h = record { takes = (h x).takes }
  IsTaking-read (fail p) fd h = record { takes = λ a w. refl }

  IsTaking-handled :
      (p n : ℕ) (fd : Option ℕ) {m : M (Unit {0})}
      → IsTaking fd m
      → IsTaking fd (if_handled_fd p n fd m)
  unfolding if_handled_fd
  IsTaking-handled p n fd h = record {
    takes = λ a w. elim (Bool-cases ((w.heap p).handler n)) [
      | inl set ↦ rw set (h.takes a w)
      | inr nil ↦ rw nil (close_received_fd-total unix a fd w)
    ];
  }

  own-total :
      (fd : Option ℕ) (a : ℕ) (w : World)
      → total unix a (own fd w) ≡ total unix a w + copies a (opt_fd fd)
  unfolding own total held
  own-total none a w = omega arith
  own-total (some fd) a w = ground arith

  module _ (on_event : ℕ → Event → M (Unit {0}))
      (calm : (p : ℕ) (e : Event) → Keeps (SameTotals unix) (on_event p e)) where
    IsTaking-call : (p : ℕ) (e : Event) (fd : Option ℕ) → IsTaking fd (call on_event p e fd)
    unfolding call ◌>>=◌
    IsTaking-call p e fd = record { takes = λ a w. go a w (on_event p e w) ((calm p e).keeps w a) }
      where
        go :
            (a : ℕ) (w : World) (o : Outcome (Unit {0}))
            → total unix a (state o) ≡ total unix a w
            → Takes unix a fd w
                (elim o [ done x w' ↦ done tt (own fd w') | panicked p w' ↦ panicked p w' ])
        go a w (done x w') h = own-total fd a w' ∙ ap (λ n. n + copies a (opt_fd fd)) h
        go a w (panicked p w') h = h

    send-IsTaking :
        (p : ℕ) (fd : Option ℕ) (body : List ℕ)
        → IsTaking fd (DataSource.send_event on_event p fd body)
    unfolding DataSource.send_event
    send-IsTaking p fd body =
        IsTaking-handled p 1 fd (IsTaking-read (string_at body 0) fd λ x. IsTaking-call p _ fd)

    keymap-IsTaking :
        (p : ℕ) (fd : Option ℕ) (body : List ℕ)
        → IsTaking fd (Keyboard.keymap_event on_event p fd body)
    unfolding Keyboard.keymap_event
    keymap-IsTaking p fd body = IsTaking-handled p 0 fd (
        IsTaking-read (uint32_at body 0) fd
          λ x. IsTaking-read (uint32_at body 4) fd λ y. IsTaking-call p _ fd)

    -- `fd` is what `Dispatch` may give to a type with this `HasFD`.
    abbrev pub Suits : Option (ℕ → Bool) → ℕ → Option ℕ → Type 0
    Suits has opcode fd = (f : ℕ → Bool) → has ≡ some f → f opcode ≡ false → fd ≡ none

    pub data_source-IsTaking :
        (p opcode : ℕ) (fd : Option ℕ) (body : List ℕ)
        → Suits (some DataSource.has_fd) opcode fd
        → IsTaking fd (DataSource.dispatch on_event p opcode fd body)
    unfolding DataSource.has_fd DataSource.dispatch
    data_source-IsTaking p opcode fd body suits = elim (Bool-cases (opcode == 1)) [
      | inl send ↦
          subst (λ n. IsTaking fd (DataSource.dispatch on_event p n fd body))
            (sym ((==_iff opcode 1).0 send)) (send-IsTaking p fd body)
      | inr plain ↦
          subst (λ o. IsTaking o (DataSource.dispatch on_event p opcode o body))
            (sym (suits DataSource.has_fd refl (rw plain refl)))
            (IsTaking-kept
              (data_source-Keeps (SameTotals-IsFrame unix) on_event calm p opcode body))
    ]

    pub keyboard-IsTaking :
        (p opcode : ℕ) (fd : Option ℕ) (body : List ℕ)
        → Suits (some Keyboard.has_fd) opcode fd
        → IsTaking fd (Keyboard.dispatch on_event p opcode fd body)
    unfolding Keyboard.has_fd Keyboard.dispatch
    keyboard-IsTaking p opcode fd body suits = elim (Bool-cases (opcode == 0)) [
      | inl keymap ↦
          subst (λ n. IsTaking fd (Keyboard.dispatch on_event p n fd body))
            (sym ((==_iff opcode 0).0 keymap)) (keymap-IsTaking p fd body)
      | inr plain ↦
          subst (λ o. IsTaking o (Keyboard.dispatch on_event p opcode o body))
            (sym (suits Keyboard.has_fd refl (rw plain refl)))
            (IsTaking-kept (keyboard-Keeps (SameTotals-IsFrame unix) on_event calm p opcode body))
    ]

    pub IsTaking-plain :
        (opcode : ℕ) (fd : Option ℕ) (m : M (Unit {0}))
        → Suits (some has_no_fd) opcode fd
        → Keeps (SameTotals unix) m
        → IsTaking fd m
    unfolding has_no_fd
    IsTaking-plain opcode fd m suits h =
        subst (λ o. IsTaking o m) (sym (suits has_no_fd refl refl)) (IsTaking-kept h)
