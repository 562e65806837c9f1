-- ===== src/Connect/Start.antt =====
-- The connection that `Connect` of client/context.go hands to the application: `NewDisplay` on a new
-- `Context`.
use sysc_wayland.Base.{ℕ, ◌≡◌, refl, [], ◌∷◌, none, arith}
use sysc_wayland.World.{
  World, Context, M, display, done, state, alloc, proxy_id, set_id, set_context,
}
use sysc_wayland.Ids.{new_object, register, install, count_up}
use sysc_wayland.Ids.Invariant.{IsValid}
use sysc_wayland.Ids.Lifecycle.{new_object-IsValid}

-- `&Context{objects: make(map[uint32]Proxy)}`
unfoldable pub new_context : Context
new_context = record {
  objects = [];
  free_ids = [];
  current_id = 0;
  fatal_err = none;
  pending_fds = [];
}

-- `NewDisplay(ctx)` on the new context.
unfoldable pub new_display : M ℕ
new_display w = new_object display (record w { ctx = new_context })

new_context-IsValid : (w : World) → IsValid (record w { ctx = new_context })
unfolding new_context
new_context-IsValid w = record {
  counter = omega arith;
  free = λ n h. absurd (omega arith);
  live = λ n r h. cc;
}

-- The display that `Connect` returns is the object with ID 1, as the protocol has it, alone in a
-- table that is well formed, and on a connection without a sticky error.
pub new_display-IsValid :
    (w : World)
    → let w' = state (new_display w) in
      (new_display w ≡ done w.next_ref w')
      × (w'.objects ≡ (1, w.next_ref) ∷ [])
      × (proxy_id w.next_ref w' ≡ 1)
      × (w'.fatal_err ≡ none)
      × IsValid w'
unfolding new_display new_context new_object alloc register install set_id set_context proxy_id
    count_up
new_display-IsValid w =
    (refl, refl, ground arith, refl, new_object-IsValid display _ (new_context-IsValid w))
