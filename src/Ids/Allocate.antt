-- ===== src/Ids/Allocate.antt =====
-- What `Register` and `RegisterWithID` of client/context.go do on a well-formed table.
use sysc_wayland.Base.{
  ℕ, suc, ◌+◌, ◌-◌, ◌≤◌, ◌<◌, ◌≡◌, refl, ◌⊎◌, inl, inr, true, false, List, [], ◌∷◌, none, arith,
  leb, if◌then◌else◌, lookup, Option-cases,
}
use sysc_wayland.World.{World, M, Outcome, done, panicked, id_space_exhausted}
use sysc_wayland.Ids.{first_server_id, install, register, count_up, next_id, pop_free}
use native.Mathlib.Decide.{dec_lt}
use sysc_wayland.Ids.Invariant.{IsValid}

-- The allocation that the two loops amount to: the newest released ID, or the counter's next.
unfoldable pub allocate : ℕ → M (Unit {0})
allocate p w = elim w.free_ids [
  | [] ↦
      if leb (first_server_id - 1) w.current_id
      then panicked id_space_exhausted w
      else done tt (
          install p (w.current_id + 1)
            (record w { ctx = record (w.ctx) { current_id = w.current_id + 1 } }))
  | id ∷ rest ↦ done tt (install p id (record w { ctx = record (w.ctx) { free_ids = rest } }))
]

-- Either the counter has run out, or its next ID is not live.
abbrev pub IsRoom : List (ℕ × ℕ) → ℕ → Type 0
IsRoom objects current = (first_server_id ≤ current + 1) ⊎ (lookup (current + 1) objects ≡ none)

pub IsValid-IsRoom : (w : World) → IsValid w → IsRoom w.objects w.current_id
IsValid-IsRoom w v = elim (Option-cases (lookup (w.current_id + 1) w.objects)) [
  | inl e ↦ inr e
  | inr (r, e) ↦ inl (omega (arith, v.live (w.current_id + 1) r e))
]

next_id_step :
    (fuel : ℕ) (objects : List (ℕ × ℕ)) (current : ℕ)
    → IsRoom objects current
    → next_id (suc fuel) objects current
      ≡ (if leb (first_server_id - 1) current then (false, current) else (true, current + 1))
unfolding next_id
next_id_step fuel objects current h = ground arith

count_up_lem :
    (p : ℕ) (w : World)
    → w.current_id < first_server_id
    → IsRoom w.objects w.current_id
    → count_up p w ≡ (
        if leb (first_server_id - 1) w.current_id
        then panicked id_space_exhausted w
        else done tt (
            install p
              (w.current_id + 1)
              (record w { ctx = record (w.ctx) { current_id = w.current_id + 1 } })))
unfolding count_up
count_up_lem p w lt e =
    let room : first_server_id - w.current_id ≡ suc (first_server_id - w.current_id - 1) =
      omega arith in
    rw room (rw (next_id_step _ _ _ e) (ground arith))

pop_free_head :
    (objects : List (ℕ × ℕ)) (id : ℕ) (rest : List ℕ)
    → lookup id objects ≡ none
    → pop_free objects (id ∷ rest) ≡ (id, rest)
unfolding pop_free
pop_free_head objects id rest e = ground arith

pop_free_nil : (objects : List (ℕ × ℕ)) → pop_free objects [] ≡ (0, [])
unfolding pop_free
pop_free_nil objects = refl

register_from :
    (p : ℕ) (w : World) (free : List ℕ)
    → w.free_ids ≡ free
    → IsValid w
    → register p w ≡ allocate p w
unfolding register allocate
register_from p w [] e v = ground (
  arith,
  v.counter,
  IsValid-IsRoom w v,
  e,
  pop_free_nil w.objects,
  count_up_lem p (record w { ctx = record (w.ctx) { free_ids = [] } }),
)
register_from p w (id ∷ rest) e v = ground (arith, v.free id, pop_free_head w.objects id rest)

-- On a well-formed table `Register` takes the ID that was released last, or else the counter's next
-- one, and it panics exactly where no ID waits for reuse and the counter has reached the last
-- client ID. The ID that it takes is not live, so neither of its two loops makes a second round.
pub register-allocate : (p : ℕ) (w : World) → IsValid w → register p w ≡ allocate p w
register-allocate p w v = register_from p w w.free_ids refl v

-- The three ends of `allocate`.
module _ (p : ℕ) (w : World) where
  allocate_exhausted :
      w.free_ids ≡ []
      → first_server_id ≤ w.current_id + 1
      → allocate p w ≡ panicked id_space_exhausted w
  unfolding allocate
  allocate_exhausted e h = ground arith

  allocate_next :
      w.free_ids ≡ []
      → w.current_id + 1 < first_server_id
      → allocate p w
        ≡ done tt (
            install p
              (w.current_id + 1)
              (record w { ctx = record (w.ctx) { current_id = w.current_id + 1 } }))
  unfolding allocate
  allocate_next e h = ground arith

  pub allocate_released :
      (id : ℕ) (rest : List ℕ)
      → w.free_ids ≡ id ∷ rest
      → allocate p w
        ≡ done tt (install p id (record w { ctx = record (w.ctx) { free_ids = rest } }))
  unfolding allocate
  allocate_released id rest e = ground arith

-- What holds of a panic with the state unchanged and of each installed ID holds of the result.
pub allocate_cases {ℓ} :
    (P : Outcome (Unit {0}) → Type ℓ) (p : ℕ) (w : World) (free : List ℕ)
    → w.free_ids ≡ free
    → (w.free_ids ≡ [] → first_server_id ≤ w.current_id + 1 → P (panicked id_space_exhausted w))
    → (w.free_ids ≡ []
        → w.current_id + 1 < first_server_id
        → P (
            done tt (
              install p
                (w.current_id + 1)
                (record w { ctx = record (w.ctx) { current_id = w.current_id + 1 } }))))
    → ((id : ℕ) (rest : List ℕ)
        → w.free_ids ≡ id ∷ rest
        → P (done tt (install p id (record w { ctx = record (w.ctx) { free_ids = rest } }))))
    → P (allocate p w)
allocate_cases P p w [] e full next released = elim (dec_lt (w.current_id + 1) first_server_id) [
  | yes h ↦ rw (allocate_next p w e h) (next e h)
  | no h ↦ rw (allocate_exhausted p w e (omega arith)) (full e (omega arith))
]
allocate_cases P p w (id ∷ rest) e full next released =
    rw (allocate_released p w id rest e) (released id rest e)
