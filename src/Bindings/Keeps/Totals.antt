-- ===== src/Bindings/Keeps/Totals.antt =====
-- Steps that leave the descriptors of the transport alone.
use sysc_wayland.Base.{
  ℕ, ◌≡◌, ◌∙◌, refl, ap, not, List, Option, none, some, ltb, lookup, arith, Bool-cases,
  Option-cases, inl, inr,
}
use sysc_wayland.World.{
  World, Kind, state, mark_zombie, alloc, set_id, set_context, is_zombie, state-then_pure, Error,
}
use sysc_wayland.Ids.{delete_id, new_object_with_id, register_with_id, install, first_server_id}
use sysc_wayland.Fatal.{set_fatal, record_display_error}
use sysc_wayland.Socket.Kernel.{Unix}
use sysc_wayland.Socket.Descriptors.{held, held-set_fatal}
use sysc_wayland.Socket.Accounts.{total}
use sysc_wayland.Bindings.Keeps.{IsFrame}

module _ (unix : Unix) where
  -- Each descriptor is accounted for as before.
  abbrev pub SameTotals : World → World → Type 0
  SameTotals w w' = (a : ℕ) → total unix a w' ≡ total unix a w

  set_fatal-total : (e : Error) (w : World) → SameTotals w (set_fatal e w).1
  unfolding total
  set_fatal-total e w a = ground (arith, held-set_fatal a e w)

  record_display_error-total :
      (object : Option ℕ) (code : ℕ) (message : List ℕ) (w : World)
      → SameTotals w (record_display_error object code message w)
  unfolding record_display_error
  record_display_error-total none code message w = set_fatal-total _ w
  record_display_error-total (some p) code message w = set_fatal-total _ w

  delete_id-total : (id : ℕ) (w : World) → SameTotals w (delete_id id w)
  unfolding delete_id total held
  delete_id-total id w a = ground arith

  install-total : (p id : ℕ) (w : World) → SameTotals w (install p id w)
  unfolding install total held set_id set_context
  install-total p id w a = refl

  register_with_id-total : (p id : ℕ) (w : World) → SameTotals w (state (register_with_id p id w))
  unfolding register_with_id
  register_with_id-total p id w a = elim (Bool-cases (ltb id first_server_id)) [
    | inl low ↦ rw low refl
    | inr high ↦ elim (Option-cases (lookup id w.objects)) [
      | inl free ↦ rw (high, free) (install-total p id w a)
      | inr (old, taken) ↦ elim (Bool-cases (not (is_zombie old w))) [
        | inl live ↦ rw (high, taken) (rw live refl)
        | inr dead ↦ rw (high, taken) (rw dead (install-total p id w a))
      ]
    ]
  ]

  new_object_with_id-total :
      (kind : Kind) (id : ℕ) (w : World) → SameTotals w (state (new_object_with_id kind id w))
  unfolding new_object_with_id alloc total held
  new_object_with_id-total kind id w a =
      let p = w.next_ref in
      let w' = state (alloc kind w) in
      ap (total unix a) (state-then_pure (register_with_id p id) p w')
      ∙ register_with_id-total p id w' a

  mark_zombie-total : (p : ℕ) (w : World) → SameTotals w (mark_zombie p w)
  unfolding mark_zombie total held
  mark_zombie-total p w a = refl

  pub SameTotals-IsFrame : IsFrame SameTotals
  SameTotals-IsFrame = record {
    same = λ w a. refl;
    then_ = λ u v w h k a. k a ∙ h a;
    records = record_display_error-total;
    deletes = delete_id-total;
    introduces = new_object_with_id-total;
    destroys = mark_zombie-total;
  }
