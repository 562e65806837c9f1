-- ===== src/Ids/Lifecycle.antt =====
-- Histories of the object table.
use sysc_wayland.Base.{ℕ, List, [], ◌∷◌, arith, lookup-erase}
use sysc_wayland.World.{World, Kind, state, proxy_id, alloc, mark_zombie, state-then_pure}
use sysc_wayland.Ids.{
  register, register_with_id, delete_id, unregister, new_object, new_object_with_id,
}
use sysc_wayland.Ids.Invariant.{IsValid, IsFresh, delete_id-IsValid}
use sysc_wayland.Ids.Register.{register-IsValid}
use sysc_wayland.Ids.Reuse.{register_with_id-IsValid}

-- What generated code and the application do to the table: `NewT`, an object that an event
-- introduces, `Unregister`, a delete_id, and a destroyed object that turns into a zombie.
pub data Op : Type 0 where
  create : Kind → Op
  introduce : Kind → ℕ → Op
  release remove destroy : ℕ → Op

pub step : Op → World → World
step (create k) w = state (new_object k w)
step (introduce k id) w = state (new_object_with_id k id w)
step (release id) w = delete_id id w
step (remove p) w = unregister p w
step (destroy p) w = mark_zombie p w

pub run : List Op → World → World
run [] w = w
run (op ∷ ops) w = run ops (step op w)

pub alloc-IsValid :
    (k : Kind) (w : World)
    → IsValid w
    → IsValid (state (alloc k w)) × IsFresh w.next_ref (state (alloc k w))
unfolding alloc
alloc-IsValid k w v = (
  record { counter = v.counter; free = v.free; live = λ n r e. ground (arith, v.live n r) },
  record { allocated = omega arith; unregistered = λ n e. omega (arith, v.live n w.next_ref e) },
)

-- `NewT` keeps the table well formed, also where it panics.
pub new_object-IsValid : (k : Kind) (w : World) → IsValid w → IsValid (state (new_object k w))
unfolding new_object
new_object-IsValid k w v =
    let (v', f) = alloc-IsValid k w v in
    rw (state-then_pure (register w.next_ref) w.next_ref (state (alloc k w)))
      (register-IsValid w.next_ref _ v' f)

-- So does the introduction of an object by the server.
pub new_object_with_id-IsValid :
    (k : Kind) (id : ℕ) (w : World) → IsValid w → IsValid (state (new_object_with_id k id w))
unfolding new_object_with_id
new_object_with_id-IsValid k id w v =
    let (v', f) = alloc-IsValid k w v in
    rw (state-then_pure (register_with_id w.next_ref id) w.next_ref (state (alloc k w)))
      (register_with_id-IsValid w.next_ref id _ v' f)

unregister-IsValid : (p : ℕ) (w : World) → IsValid w → IsValid (unregister p w)
unfolding unregister
unregister-IsValid p w v = record {
  counter = v.counter;
  free = λ n c. ground (arith, v.free n, lookup-erase (proxy_id p w) n w.objects);
  live = λ n r e. ground (arith, v.live n r, lookup-erase (proxy_id p w) n w.objects);
}

pub mark_zombie-IsValid : (p : ℕ) (w : World) → IsValid w → IsValid (mark_zombie p w)
unfolding mark_zombie
mark_zombie-IsValid p w v = record {
  counter = v.counter;
  free = v.free;
  live = λ n r e. ground (arith, v.live n r);
}

step-IsValid : (op : Op) (w : World) → IsValid w → IsValid (step op w)
unfolding step
step-IsValid (create k) w v = new_object-IsValid k w v
step-IsValid (introduce k id) w v = new_object_with_id-IsValid k id w v
step-IsValid (release id) w v = delete_id-IsValid id w v
step-IsValid (remove p) w v = unregister-IsValid p w v
step-IsValid (destroy p) w v = mark_zombie-IsValid p w v

-- Every history of creations, introductions, unregistrations, delete_ids and destructions that
-- starts at a well-formed table ends at one, whichever of its calls panic.
pub run-IsValid : (ops : List Op) (w : World) → IsValid w → IsValid (run ops w)
unfolding run
run-IsValid [] w v = v
run-IsValid (op ∷ ops) w v = run-IsValid ops (step op w) (step-IsValid op w v)
