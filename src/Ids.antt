-- ===== src/Ids.antt =====
-- Object IDs: `Register`, `RegisterWithID`, `Unregister`, `DeleteID`, `GetProxy` and `lookupProxy` of
-- client/context.go.
pub mod Invariant
pub mod Allocate
pub mod Register
pub mod Reuse
pub mod Lifecycle
pub mod Table
use sysc_wayland.Base.{
  ℕ, zero, suc, ◌+◌, ◌-◌, Bool, true, false, not, ◌&&◌, List, [], ◌∷◌, Option, none, some, ltb, leb,
  ◌==◌, if◌then◌else◌, lookup, insert, erase,
}
use sysc_wayland.World.{
  World, Kind, id_space_exhausted, invalid_server_id, duplicate_id, M, pure, ◌>>=◌, ◌>>◌, done,
  panicked, set_id, set_context, is_zombie, proxy_id, alloc,
}

abbrev pub first_server_id : ℕ
first_server_id = 0xff000000

abbrev pub is_some {ℓ} : {A : Type ℓ} → Option A → Bool
is_some none = false
is_some (some a) = true

-- `_, live := ctx.objects[id]`
abbrev pub is_live : List (ℕ × ℕ) → ℕ → Bool
is_live objects id = is_some (lookup id objects)

-- The first loop of `Register`: pops `freeIDs` until an ID is not live. 0 if there is none.
pub pop_free : List (ℕ × ℕ) → List ℕ → ℕ × List ℕ
pop_free objects [] = (0, [])
pop_free objects (cand ∷ rest) =
    let more = pop_free objects rest in if is_live objects cand then more else (cand, rest)

-- The second loop: counts `currentID` up to an ID that is not live. Gives whether one was found, and
-- `currentID`. It stops at `firstServerID - 1`, so that the distance to that is enough fuel.
pub next_id : ℕ → List (ℕ × ℕ) → ℕ → Bool × ℕ
next_id zero objects current = (false, current)
next_id (suc fuel) objects current =
    let more = next_id fuel objects (current + 1) in
    if leb (first_server_id - 1) current
    then (false, current)
    else if is_live objects (current + 1)
    then more
    else (true, current + 1)

-- The last three lines of `Register` and `RegisterWithID`.
unfoldable pub install : ℕ → ℕ → World → World
unfolding set_id set_context
install p id w =
    let w' = set_context p (set_id p id w) in
    record w' { ctx = record (w'.ctx) { objects = insert id p w'.ctx.objects } }

unfoldable pub count_up : ℕ → M (Unit {0})
unfolding next_id
count_up p w =
    let (found, id) = next_id (first_server_id - w.current_id) w.objects w.current_id in
    let w' = record w { ctx = record (w.ctx) { current_id = id } } in
    if found then done tt (install p id w') else panicked id_space_exhausted w'

unfoldable pub register : ℕ → M (Unit {0})
unfolding pop_free
register p w =
    let (id, rest) = pop_free w.objects w.free_ids in
    let w' = record w { ctx = record (w.ctx) { free_ids = rest } } in
    if id == 0 then count_up p w' else done tt (install p id w')

unfoldable pub register_with_id : ℕ → ℕ → M (Unit {0})
unfolding is_zombie
register_with_id p id w =
    if ltb id first_server_id
    then panicked (invalid_server_id id) w
    else elim (lookup id w.objects) [
      | none ↦ done tt (install p id w)
      | some old ↦
          if not (is_zombie old w) then panicked (duplicate_id id) w else done tt (install p id w)
    ]

pub unregister : ℕ → World → World
unfolding proxy_id
unregister p w = record w { ctx = record (w.ctx) { objects = erase (proxy_id p w) w.objects } }

unfoldable pub delete_id : ℕ → World → World
delete_id id w =
    if is_live w.objects id
    then record w {
      ctx = record (w.ctx) {
        objects = erase id w.objects;
        free_ids = if ltb 1 id && ltb id first_server_id then id ∷ w.free_ids else w.free_ids;
      };
    }
    else w

unfoldable pub lookup_proxy : ℕ → World → Option ℕ
lookup_proxy id w = lookup id w.objects

-- `NewT`: allocates and registers; and the same under an ID that the server chose.
unfoldable pub new_object : Kind → M ℕ
unfolding alloc
new_object k = do p ← alloc k; register p; pure p

unfoldable pub new_object_with_id : Kind → ℕ → M ℕ
unfolding alloc
new_object_with_id k id = do p ← alloc k; register_with_id p id; pure p
