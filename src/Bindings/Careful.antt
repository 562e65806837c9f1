-- ===== src/Bindings/Careful.antt =====
-- The generated types, and the descriptors that `Dispatch` gives to them.
use sysc_wayland.Base.{ℕ, ◌≡◌, ◌∙◌, sym, List, Option, none}
use mathlib.Core.Path.{subst}
use sysc_wayland.World.{World, Kind, M}
use sysc_wayland.Socket.Kernel.{Unix}
use sysc_wayland.Dispatch.Interfaces.{Methods}
use sysc_wayland.Dispatch.Accounts.{Takes, AreCareful}
use sysc_wayland.Bindings.Events.{Event}
use sysc_wayland.Bindings.Table.{has_fd, generated}
use sysc_wayland.Bindings.Taking.{
  IsTaking-kept, IsTaking-plain, Suits, data_source-IsTaking, keyboard-IsTaking,
}
use sysc_wayland.Bindings.Keeps.{Keeps}
use sysc_wayland.Bindings.Keeps.Totals.{SameTotals, SameTotals-IsFrame}
use sysc_wayland.Bindings.Classes.{
  Class, plain, sends, keymaps, elsewhere, classify, AbsorbClass, known, unknown, classify_absorb,
}

module _ (unix : Unix) (on_event : ℕ → Event → M (Unit {0}))
    (calm : (p : ℕ) (e : Event) → Keeps (SameTotals unix) (on_event p e)) where
  module _ (foreign : Methods) (careful : AreCareful unix foreign) where
    abbrev Obliges : Kind → (ℕ → ℕ → Option ℕ → List ℕ → M (Unit {0})) → Type 0
    Obliges kind m =
        (a p opcode : ℕ) (fd : Option ℕ) (body : List ℕ) (w : World)
        → (w.heap p).kind ≡ kind
        → Suits unix on_event calm (has_fd on_event foreign kind) opcode fd
        → Takes unix a fd w (m p opcode fd body w)

    obliges :
        (kind : Kind) (m : ℕ → ℕ → Option ℕ → List ℕ → M (Unit {0}))
        → Class (SameTotals-IsFrame unix) on_event calm foreign kind m
        → Obliges kind m
    obliges kind m (plain none_has h) a p opcode fd body w k suits =
        (IsTaking-plain unix on_event calm opcode fd (m p opcode fd body)
            (λ f e. suits f (none_has ∙ e)) (h p opcode fd body)).takes
          a w
    obliges kind m (sends has e) a p opcode fd body w k suits =
        subst (λ n. Takes unix a fd w (n p opcode fd body w)) (sym e)
          ((data_source-IsTaking unix on_event calm p opcode fd body
              (λ f g. suits f (has ∙ g))).takes
            a w)
    obliges kind m (keymaps has e) a p opcode fd body w k suits =
        subst (λ n. Takes unix a fd w (n p opcode fd body w)) (sym e)
          ((keyboard-IsTaking unix on_event calm p opcode fd body (λ f g. suits f (has ∙ g))).takes
            a w)
    obliges kind m (elsewhere same e) a p opcode fd body w k suits =
        careful.dispatches a kind m e p opcode fd body w k λ f g. suits f (same ∙ g)

    absorbs :
        (kind : Kind) (m : ℕ → ℕ → List ℕ → M (Unit {0}))
        → AbsorbClass (SameTotals-IsFrame unix) on_event calm foreign kind m
        → (a p opcode : ℕ) (body : List ℕ) (w : World) → Takes unix a none w (m p opcode body w)
    absorbs kind m (known h) a p opcode body w = (IsTaking-kept unix (h p opcode body)).takes a w
    absorbs kind m (unknown e) a p opcode body w = careful.absorbs a kind m e p opcode body w

    -- The decoders of the bindings satisfy what the accounts of `Dispatch` ask of an object's
    -- methods: whatever the event and its bytes, a decoder that returns has closed the
    -- descriptor or has given it to the handler, and one that panics has not touched it. It is
    -- assumed that the handlers of the application leave the transport's descriptors alone, and
    -- that the types that are not modelled satisfy the same.
    pub generated-AreCareful : AreCareful unix (generated on_event foreign)
    generated-AreCareful = record {
      dispatches = λ a kind m e p opcode fd body w k suits.
          obliges kind m (classify (SameTotals-IsFrame unix) on_event calm foreign kind m e) a p
            opcode fd body w k suits;
      absorbs = λ a kind m e p opcode body w.
          absorbs kind m (classify_absorb (SameTotals-IsFrame unix) on_event calm foreign kind m e)
            a p opcode body w;
    }
