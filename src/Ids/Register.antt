-- ===== src/Ids/Register.antt =====
-- `Register` of client/context.go on a well-formed table: what it keeps, and which ID it gives.
use sysc_wayland.Base.{
  ℕ, ◌+◌, ◌≤◌, ◌<◌, ◌≡◌, ◌≢◌, refl, inl, inr, List, [], ◌∷◌, none, some, arith, lookup, copies,
}
use sysc_wayland.World.{
  World, Outcome, done, panicked, state, set_id, set_context, proxy_id, id_space_exhausted,
}
use sysc_wayland.Ids.{first_server_id, install, register}
use sysc_wayland.Ids.Invariant.{IsValid, IsFresh, install-IsValid}
use sysc_wayland.Ids.Allocate.{IsValid-IsRoom, register-allocate, allocate_cases}

next_IsValid :
    (w : World)
    → IsValid w
    → w.current_id + 1 < first_server_id
    → IsValid (record w { ctx = record (w.ctx) { current_id = w.current_id + 1 } })
next_IsValid w v h = record {
  counter = h;
  free = λ n c. ground (arith, v.free n);
  live = λ n r e. ground (arith, v.live n r);
}

released_IsValid :
    (w : World) (id : ℕ) (rest : List ℕ)
    → IsValid w
    → w.free_ids ≡ id ∷ rest
    → IsValid (record w { ctx = record (w.ctx) { free_ids = rest } })
released_IsValid w id rest v e = record {
  counter = v.counter;
  free = λ n c. ground (arith, v.free n);
  live = v.live;
}

next_idle : (w : World) → IsValid w → copies (w.current_id + 1) w.free_ids ≡ 0
next_idle w v = ground (arith, v.free (w.current_id + 1))

released_idle :
    (w : World) (id : ℕ) (rest : List ℕ)
    → IsValid w
    → w.free_ids ≡ id ∷ rest
    → (copies id rest ≡ 0) × (1 < id) × (id ≤ w.current_id) × (lookup id w.objects ≡ none)
released_idle w id rest v e = ground (arith, v.free id)

-- `Register` keeps the table well formed, also where it panics.
pub register-IsValid :
    (p : ℕ) (w : World) → IsValid w → IsFresh p w → IsValid (state (register p w))
register-IsValid p w v f = rw (register-allocate p w v) (
    allocate_cases (λ o. IsValid (state o)) p w w.free_ids refl (λ _ _. v)
      (λ e h.
        install-IsValid p _ _ (next_IsValid w v h)
          (record { allocated = f.allocated; unregistered = f.unregistered }) (next_idle w v)
          (inl (omega arith)))
      (λ id rest e.
        let (idle, low, high, _) = released_idle w id rest v e in
        install-IsValid p _ _ (released_IsValid w id rest v e)
          (record { allocated = f.allocated; unregistered = f.unregistered }) idle
          (inl (omega arith))))

-- The new proxy of `Register`: its ID was not live, is a client ID above 0, and is now the proxy's
-- own. Every other entry of the table is as it was, and so is every other object.
abbrev pub Registers : ℕ → World → Outcome (Unit {0}) → Type 0
Registers p w (panicked e w') = (e ≡ id_space_exhausted) × (first_server_id ≤ w.current_id + 1)
Registers p w (done _ w') =
    let id = proxy_id p w' in
    (lookup id w.objects ≡ none)
    × (0 < id)
    × (id < first_server_id)
    × (lookup id w'.objects ≡ some p)
    × ((k : ℕ) → k ≢ id → lookup k w'.objects ≡ lookup k w.objects)
    × ((q : ℕ) → q ≢ p → w'.heap q ≡ w.heap q)

pub install-Registers :
    (p id : ℕ) (w : World)
    → lookup id w.objects ≡ none
    → 0 < id
    → id < first_server_id
    → Registers p w (done tt (install p id w))
unfolding install set_id set_context proxy_id
install-Registers p id w e low high = (
  ground arith,
  ground arith,
  ground arith,
  ground arith,
  λ k ne. ground arith,
  λ q ne. ground arith,
)

-- `Register` on a well-formed table: it gives the proxy a client ID above 0 that was not live, sets
-- the proxy's own ID to it, and leaves every other entry and every other object as it was; or it
-- panics with the counter at the last client ID.
pub register-Registers : (p : ℕ) (w : World) → IsValid w → Registers p w (register p w)
register-Registers p w v = rw (register-allocate p w v) (
    allocate_cases (Registers p w) p w w.free_ids refl (λ _ h. (refl, h))
      (λ e h. install-Registers p (w.current_id + 1) _ (room e h) (omega arith) h)
      (λ id rest e.
        let (_, low, high, gone) = released_idle w id rest v e in
        install-Registers p id _ gone (omega arith) (omega (arith, v.counter))))
  where
    room :
        w.free_ids ≡ []
        → w.current_id + 1 < first_server_id
        → lookup (w.current_id + 1) w.objects ≡ none
    room e h = elim (IsValid-IsRoom w v) [ inl full ↦ absurd (omega arith) | inr gone ↦ gone ]
