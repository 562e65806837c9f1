-- ===== src/Dispatch/Interfaces.antt =====
-- The optional interfaces of client/common.go that an object's type may implement: `FDDispatcher`,
-- `NewIDAbsorber` and `Dispatcher`. A type assertion that fails gives `none`. A method's first
-- argument is the object.
use sysc_wayland.Base.{ℕ, Bool, List, Option}
use sysc_wayland.World.{Kind, M}

pub record Methods : Type 0 where
  pub has_fd : Kind → Option (ℕ → Bool)
  pub absorb_new_ids : Kind → Option (ℕ → ℕ → List ℕ → M (Unit {0}))
  pub dispatch : Kind → Option (ℕ → ℕ → Option ℕ → List ℕ → M (Unit {0}))
