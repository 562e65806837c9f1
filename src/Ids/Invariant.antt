-- ===== src/Ids/Invariant.antt =====
-- The well-formedness of the object table of client/context.go.
use sysc_wayland.Base.{
  ℕ, ◌≤◌, ◌<◌, ◌≡◌, ◌≢◌, ◌⊎◌, inl, inr, none, some, arith, lookup, lookup-erase, copies,
  Option-cases,
}
use sysc_wayland.World.{World, set_id, set_context}
use sysc_wayland.Ids.{first_server_id, install, delete_id}

-- An ID waits for reuse once at most, is one that the counter has given out, and is not live. A live
-- ID is the counter's or the server's, and stands in the object registered under it.
pub record IsValid (w : World) : Type 0 where
  pub counter : w.current_id < first_server_id
  pub free :
      (n : ℕ)
      → 0 < copies n w.free_ids
      → (1 < n) × (n ≤ w.current_id) × (lookup n w.objects ≡ none) × (copies n w.free_ids ≡ 1)
  pub live :
      (n r : ℕ)
      → lookup n w.objects ≡ some r
      → (((1 ≤ n) × (n ≤ w.current_id)) ⊎ (first_server_id ≤ n))
        × ((w.heap r).id ≡ n)
        × (r < w.next_ref)

-- A proxy that is allocated and stands in no entry of the table.
pub record IsFresh (p : ℕ) (w : World) : Type 0 where
  pub allocated : p < w.next_ref
  pub unregistered : (n : ℕ) → lookup n w.objects ≢ some p

-- Writing a fresh object under an ID that is not waiting for reuse.
pub install-IsValid :
    (p id : ℕ) (w : World)
    → IsValid w
    → IsFresh p w
    → copies id w.free_ids ≡ 0
    → ((1 ≤ id) × (id ≤ w.current_id)) ⊎ (first_server_id ≤ id)
    → IsValid (install p id w)
unfolding install set_id set_context
install-IsValid p id w v f idle range = record {
  counter = v.counter;
  free = λ n h. ground (arith, v.free n h);
  live = λ n r h. ground (arith, v.live n r, f.unregistered n, f.allocated);
}

-- `DeleteID` keeps the table well formed.
pub delete_id-IsValid : (id : ℕ) (w : World) → IsValid w → IsValid (delete_id id w)
unfolding delete_id
delete_id-IsValid id w v = elim (Option-cases (lookup id w.objects)) [
  | inl e ↦ rw (e, delete_id) v
  | inr (r, e) ↦ record {
    counter = ground (arith, v.counter);
    free = λ n h. ground (arith, v.free n, v.live id r, lookup-erase id n w.objects);
    live = λ n q h. ground (arith, v.live n q, lookup-erase id n w.objects);
  }
]
