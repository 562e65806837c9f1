-- ===== src/Bindings/Keeps/Idle.antt =====
-- The decoders of idle/ext_idle_notify.go where they are given no descriptor.
use sysc_wayland.Base.{ℕ, List, Option}
use sysc_wayland.World.{World, M}
use sysc_wayland.Bindings.Events.{Event}
use sysc_wayland.Bindings.Decoders.IdleNotification
use sysc_wayland.Bindings.Keeps.{IsFrame, Keeps, keeps_rules}

module _ {R : World → World → Type 0} (frame : IsFrame R) (on_event : ℕ → Event → M (Unit {0}))
    (calm : (p : ℕ) (e : Event) → Keeps R (on_event p e)) where
  pub idle_notification-Keeps :
      (p opcode : ℕ) (fd : Option ℕ) (body : List ℕ)
      → Keeps R (IdleNotification.dispatch on_event p opcode fd body)
  unfolding IdleNotification.dispatch
  idle_notification-Keeps p opcode fd body = search (keeps_rules) depth 60
