-- ===== src/Bindings/Keeps/SessionLock.antt =====
-- The decoders of sessionlock/ext_session_lock_v1.go where they are given no descriptor.
use sysc_wayland.Base.{ℕ, List, Option}
use sysc_wayland.World.{World, M}
use sysc_wayland.Bindings.Events.{Event}
use sysc_wayland.Bindings.Decoders.SessionLock
use sysc_wayland.Bindings.Decoders.SessionLockSurface
use sysc_wayland.Bindings.Keeps.{IsFrame, Keeps, keeps_rules}

module _ {R : World → World → Type 0} (frame : IsFrame R) (on_event : ℕ → Event → M (Unit {0}))
    (calm : (p : ℕ) (e : Event) → Keeps R (on_event p e)) where
  pub session_lock-Keeps :
      (p opcode : ℕ) (fd : Option ℕ) (body : List ℕ)
      → Keeps R (SessionLock.dispatch on_event p opcode fd body)
  unfolding SessionLock.dispatch
  session_lock-Keeps p opcode fd body = search (keeps_rules) depth 60

  session_lock_surface_configure_event-Keeps :
      (p : ℕ) (body : List ℕ) → Keeps R (SessionLockSurface.configure_event on_event p body)
  unfolding SessionLockSurface.configure_event
  session_lock_surface_configure_event-Keeps p body = search (keeps_rules) depth 40

  pub session_lock_surface-Keeps :
      (p opcode : ℕ) (fd : Option ℕ) (body : List ℕ)
      → Keeps R (SessionLockSurface.dispatch on_event p opcode fd body)
  unfolding SessionLockSurface.dispatch
  session_lock_surface-Keeps p opcode fd body =
      search (keeps_rules, session_lock_surface_configure_event-Keeps) depth 60
