-- ===== src/Ids/Reuse.antt =====
-- IDs that come back: `DeleteID` and `RegisterWithID` of client/context.go.
use sysc_wayland.Base.{
  ℕ, ◌≤◌, ◌<◌, ◌≡◌, ◌≢◌, refl, ◌⊎◌, inl, inr, true, false, ◌∷◌, none, some, arith, ◌∙◌, lookup,
  erase, lookup-erase, Option-cases, Bool-cases,
}
use sysc_wayland.World.{
  World, Outcome, done, panicked, state, set_id, set_context, proxy_id, is_zombie,
  invalid_server_id, duplicate_id,
}
use sysc_wayland.Ids.{first_server_id, install, register, register_with_id, delete_id}
use native.Mathlib.Decide.{dec_lt}
use sysc_wayland.Ids.Invariant.{IsValid, IsFresh, install-IsValid, delete_id-IsValid}
use sysc_wayland.Ids.Allocate.{register-allocate, allocate_released}

delete_id_client :
    (id : ℕ) (w : World) {r : ℕ}
    → lookup id w.objects ≡ some r
    → 1 < id
    → id < first_server_id
    → delete_id id w ≡ record w {
      ctx = record (w.ctx) { objects = erase id w.objects; free_ids = id ∷ w.free_ids };
    }
unfolding delete_id
delete_id_client id w e low high = ground arith

-- The client ID of a live object that the server acknowledges by delete_id is the very next one
-- that `Register` gives out: the counter does not move, and the ID leaves the list of free ones.
pub register-delete_id :
    (p id r : ℕ) (w : World)
    → IsValid w
    → lookup id w.objects ≡ some r
    → 1 < id
    → id < first_server_id
    → register p (delete_id id w)
      ≡ done tt (install p id (record w { ctx = record (w.ctx) { objects = erase id w.objects } }))
register-delete_id p id r w v e low high =
    register-allocate p (delete_id id w) (delete_id-IsValid id w v)
    ∙ rw (delete_id_client id w e low high) (allocate_released p _ id w.free_ids refl)

-- A second delete_id for one ID changes nothing, so no ID is queued twice.
pub delete_id-delete_id : (id : ℕ) (w : World) → delete_id id (delete_id id w) ≡ delete_id id w
unfolding delete_id
delete_id-delete_id id w = ground (arith, lookup-erase id id w.objects)

-- `RegisterWithID`: an ID below the server's range panics, so does a live object at the ID, and
-- neither changes the table; a free ID or a zombie's goes to the new proxy, with its own ID set.
abbrev pub Adopts : ℕ → ℕ → World → Outcome (Unit {0}) → Type 0
Adopts p id w (panicked e w') =
    (w' ≡ w)
    × (((id < first_server_id) × (e ≡ invalid_server_id id))
        ⊎ ((old : ℕ) × (lookup id w.objects ≡ some old)
            × (is_zombie old w ≡ false)
            × (e ≡ duplicate_id id)))
Adopts p id w (done _ w') =
    (first_server_id ≤ id)
    × ((old : ℕ) → lookup id w.objects ≡ some old → is_zombie old w ≡ true)
    × (lookup id w'.objects ≡ some p)
    × (proxy_id p w' ≡ id)
    × ((k : ℕ) → k ≢ id → lookup k w'.objects ≡ lookup k w.objects)

adopt :
    (p id : ℕ) (w : World)
    → first_server_id ≤ id
    → ((old : ℕ) → lookup id w.objects ≡ some old → is_zombie old w ≡ true)
    → Adopts p id w (done tt (install p id w))
unfolding install set_id set_context proxy_id
adopt p id w high zombies = (high, zombies, ground arith, ground arith, λ k ne. ground arith)

-- The ends of `register_with_id`.
module _ (p id : ℕ) (w : World) where
  below : id < first_server_id → register_with_id p id w ≡ panicked (invalid_server_id id) w
  unfolding register_with_id
  below h = ground arith

  vacant :
      first_server_id ≤ id
      → lookup id w.objects ≡ none
      → register_with_id p id w ≡ done tt (install p id w)
  unfolding register_with_id
  vacant h e = ground arith

  replaced :
      (old : ℕ)
      → first_server_id ≤ id
      → lookup id w.objects ≡ some old
      → is_zombie old w ≡ true
      → register_with_id p id w ≡ done tt (install p id w)
  unfolding register_with_id
  replaced old h e z = ground arith

  duplicated :
      (old : ℕ)
      → first_server_id ≤ id
      → lookup id w.objects ≡ some old
      → is_zombie old w ≡ false
      → register_with_id p id w ≡ panicked (duplicate_id id) w
  unfolding register_with_id
  duplicated old h e z = ground arith

register_with_id_cases {ℓ} :
    (P : Outcome (Unit {0}) → Type ℓ) (p id : ℕ) (w : World)
    → (id < first_server_id → P (panicked (invalid_server_id id) w))
    → ((old : ℕ)
        → lookup id w.objects ≡ some old
        → is_zombie old w ≡ false
        → P (panicked (duplicate_id id) w))
    → (first_server_id ≤ id
        → ((old : ℕ) → lookup id w.objects ≡ some old → is_zombie old w ≡ true)
        → P (done tt (install p id w)))
    → P (register_with_id p id w)
register_with_id_cases P p id w low dup fine = elim (dec_lt id first_server_id) [
  | yes h ↦ rw (below p id w h) (low h)
  | no h ↦ elim (Option-cases (lookup id w.objects)) [
    | inl e ↦ rw (vacant p id w (omega arith) e) (fine (omega arith) (λ old e'. cc))
    | inr (old, e) ↦ elim (Bool-cases (is_zombie old w)) [
      | inl z ↦
          rw (replaced p id w old (omega arith) e z) (fine (omega arith) (λ other e'. ground arith))
      | inr z ↦ rw (duplicated p id w old (omega arith) e z) (dup old e z)
    ]
  ]
]

-- `RegisterWithID` panics on an ID below the server's range or a live object at the ID, the state
-- unchanged; else the proxy stands under the ID, has it as its own, and no other entry has changed.
pub register_with_id-Adopts : (p id : ℕ) (w : World) → Adopts p id w (register_with_id p id w)
register_with_id-Adopts p id w =
    register_with_id_cases (Adopts p id w) p id w (λ h. (refl, inl (h, refl)))
      (λ old e z. (refl, inr (old, e, z, refl))) (adopt p id w)

-- `RegisterWithID` keeps the table well formed, also where it panics.
pub register_with_id-IsValid :
    (p id : ℕ) (w : World) → IsValid w → IsFresh p w → IsValid (state (register_with_id p id w))
register_with_id-IsValid p id w v f =
    register_with_id_cases (λ o. IsValid (state o)) p id w (λ _. v) (λ _ _ _. v)
      (λ h z. install-IsValid p id w v f (ground (arith, v.free id, v.counter)) (inr h))
