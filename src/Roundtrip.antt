-- ===== src/Roundtrip.antt =====
-- `Roundtrip` of client/display.go: a sync request, and `Dispatch` until its callback is done.
pub mod Turns
pub mod Returns
pub mod Answers
pub mod Delivery
use sysc_wayland.Base.{ℕ, zero, suc, Bool, true, false, Option, none, some, ◌==◌, if◌then◌else◌}
use sysc_wayland.World.{
  World, M, modify, mark_zombie, Error, unable_to_sync, roundtrip_failed, Outcome, done, panicked,
}
use sysc_wayland.Socket.Kernel.{Unix}
use sysc_wayland.Dispatch.Interfaces.{Methods}
use sysc_wayland.Dispatch.{dispatch}
use sysc_wayland.Bindings.Events.{Event}
use sysc_wayland.Bindings.Objects.{set_handler}
use sysc_wayland.Bindings.Requests.Display.{sync}
use sysc_wayland.Bindings.Table.{generated}

-- `done := false`, and `done = true`.
unfoldable pub set_done : ℕ → Bool → World → World
set_done q b w = record w { finished = λ r. if q == r then b else w.finished r }

-- The handlers of the application, with the closure that `SetDoneHandler` gives to the callback.
unfoldable pub with_done : ℕ → (ℕ → Event → M (Unit {0})) → ℕ → Event → M (Unit {0})
with_done q on_event p e = if q == p then modify (set_done q true) else on_event p e

-- The deferred `Destroy` of the callback, which never fails.
unfoldable pub destroyed : ℕ → Option (Option Error × World) → Option (Outcome (Option Error))
destroyed q none = none
destroyed q (some (err, w)) = some (done err (mark_zombie q w))

module _ (unix : Unix) (on_event : ℕ → Event → M (Unit {0})) (foreign : Methods) where
  -- One `Dispatch` of the loop.
  unfoldable pub dispatch_done : ℕ → World → Option Error × World
  dispatch_done q = dispatch unix (generated (with_done q on_event) foreign)

  -- The loop `for !done`. No result if the fuel runs out.
  unfoldable pub await : ℕ → ℕ → World → Option (Option Error × World)
  await zero q w = if w.finished q then some (none, w) else none
  await (suc fuel) q w =
      let (err, w') = dispatch_done q w in
      let rest = await fuel q w' in
      if w.finished q
      then some (none, w)
      else elim err [ some e ↦ some (some (roundtrip_failed e), w') | none ↦ rest ]

  -- The body behind `Sync`.
  unfoldable pub wait : ℕ → ℕ → World → Option (Outcome (Option Error))
  wait fuel q w = destroyed q (await fuel q (set_handler q 0 (set_done q false w)))

  -- What follows on the result of `Sync`.
  unfoldable pub after_sync : ℕ → Outcome (ℕ × Option Error) → Option (Outcome (Option Error))
  after_sync fuel (done (q, some e) w) = some (done (some (unable_to_sync e)) w)
  after_sync fuel (done (q, none) w) = wait fuel q w
  after_sync fuel (panicked x w) = some (panicked x w)

  unfoldable pub roundtrip : ℕ → ℕ → World → Option (Outcome (Option Error))
  roundtrip fuel p w = after_sync fuel (sync p w)
