-- ===== src/Bindings/Keeps/Inputs.antt =====
-- Steps that add no input.
use sysc_wayland.Base.{
  ℕ, ◌≤◌, ◌≡◌, ◌∙◌, refl, ap, not, List, Option, none, some, ltb, lookup, length, arith, Bool-cases,
  Option-cases, inl, inr,
}
use sysc_wayland.World.{
  World, Kind, state, mark_zombie, alloc, set_id, set_context, is_zombie, state-then_pure,
}
use sysc_wayland.Ids.{delete_id, new_object_with_id, register_with_id, install, first_server_id}
use sysc_wayland.Fatal.{record_display_error}
use sysc_wayland.Socket.Reading.{input-set_fatal}
use sysc_wayland.Bindings.Keeps.{IsFrame}

-- No more reads are to come than before.
abbrev pub ReadsOn : World → World → Type 0
ReadsOn w w' = length w'.input ≤ length w.input

input-record_display_error :
    (object : Option ℕ) (code : ℕ) (message : List ℕ) (w : World)
    → (record_display_error object code message w).input ≡ w.input
unfolding record_display_error
input-record_display_error none code message w = input-set_fatal _ w
input-record_display_error (some p) code message w = input-set_fatal _ w

input-delete_id : (id : ℕ) (w : World) → (delete_id id w).input ≡ w.input
unfolding delete_id
input-delete_id id w = ground arith

input-install : (p id : ℕ) (w : World) → (install p id w).input ≡ w.input
unfolding install set_id set_context
input-install p id w = refl

input-register_with_id : (p id : ℕ) (w : World) → (state (register_with_id p id w)).input ≡ w.input
unfolding register_with_id
input-register_with_id p id w = elim (Bool-cases (ltb id first_server_id)) [
  | inl low ↦ rw low refl
  | inr high ↦ elim (Option-cases (lookup id w.objects)) [
    | inl free ↦ rw (high, free) (input-install p id w)
    | inr (old, taken) ↦ elim (Bool-cases (not (is_zombie old w))) [
      | inl live ↦ rw (high, taken) (rw live refl)
      | inr dead ↦ rw (high, taken) (rw dead (input-install p id w))
    ]
  ]
]

input-new_object_with_id :
    (kind : Kind) (id : ℕ) (w : World) → (state (new_object_with_id kind id w)).input ≡ w.input
unfolding new_object_with_id alloc
input-new_object_with_id kind id w =
    let p = w.next_ref in
    let w' = state (alloc kind w) in
    ap (λ v. v.input) (state-then_pure (register_with_id p id) p w')
    ∙ input-register_with_id p id w'

pub ReadsOn-IsFrame : IsFrame ReadsOn
unfolding mark_zombie
ReadsOn-IsFrame = record {
  same = λ w. omega arith;
  then_ = λ u v w h k. omega arith;
  records =
      λ object code message w. rw (input-record_display_error object code message w) (omega arith);
  deletes = λ id w. rw (input-delete_id id w) (omega arith);
  introduces = λ kind id w. rw (input-new_object_with_id kind id w) (omega arith);
  destroys = λ p w. omega arith;
}
