-- ===== src/Roundtrip/Turns.antt =====
-- The loop of `Roundtrip` in client/display.go as a relation, and the ends of the whole call.
use sysc_wayland.Base.{ℕ, suc, ◌<◌, ◌≡◌, ◌⊎◌, true, false, Option, none, some}
use sysc_wayland.World.{
  World, M, Error, Outcome, done, panicked, mark_zombie, roundtrip_failed, unable_to_sync,
}
use sysc_wayland.Socket.Kernel.{Unix}
use sysc_wayland.Dispatch.Interfaces.{Methods}
use sysc_wayland.Bindings.Events.{Event}
use sysc_wayland.Bindings.Objects.{set_handler}
use sysc_wayland.Bindings.Requests.Display.{sync}
use sysc_wayland.Roundtrip.{set_done, dispatch_done}

-- The state in which the loop for the callback `q` starts, behind a `Sync` that left `v`.
abbrev pub started : ℕ → World → World
started q v = set_handler q 0 (set_done q false v)

module _ (unix : Unix) (on_event : ℕ → Event → M (Unit {0})) (foreign : Methods) where
  -- `n` calls of `Dispatch`, each of which finds `done` false and returns nil.
  pub data Turns (q : ℕ) : ℕ → World → World → Type 0 where
    start : {w : World} → Turns q 0 w w
    turn :
        {n : ℕ} {w u u' : World}
        → w.finished q ≡ false
        → dispatch_done unix on_event foreign q w ≡ (none, u)
        → Turns q n u u'
        → Turns q (suc n) w u'

  -- How a `Roundtrip` that is called in the state `w` ends, behind `n` such calls.
  unfoldable pub Ends : ℕ → World → ℕ → Outcome (Option Error) → Type 0
  Ends p w n (panicked x w') = (n ≡ 0) × (sync p w ≡ panicked x w')
  Ends p w n (done none w') =
      (q : ℕ) × (v : World) × (u : World) × (sync p w ≡ done (q, none) v)
      × Turns q n (started q v) u
      × (0 < n)
      × (u.finished q ≡ true)
      × (w' ≡ mark_zombie q u)
  Ends p w n (done (some e) w') =
      ((n ≡ 0) × (q : ℕ) × (x : Error) × (e ≡ unable_to_sync x) × (sync p w ≡ done (q, some x) w'))
      ⊎ ((q : ℕ) × (v : World) × (u : World) × (x : Error) × (u' : World) × (sync p w
            ≡ done (q, none) v)
          × Turns q n (started q v) u
          × (u.finished q ≡ false)
          × (dispatch_done unix on_event foreign q u ≡ (some x, u'))
          × (e ≡ roundtrip_failed x)
          × (w' ≡ mark_zombie q u'))

  -- The same with fuel: if it runs out, the loop has made as many calls, and `done` is still false.
  unfoldable pub EndsOn : ℕ → ℕ → World → Option (Outcome (Option Error)) → Type 0
  unfolding Ends
  EndsOn fuel p w (some o) = (n : ℕ) × Ends p w n o
  EndsOn fuel p w none =
      (q : ℕ) × (v : World) × (u : World) × (sync p w ≡ done (q, none) v)
      × Turns q fuel (started q v) u
      × (u.finished q ≡ false)
