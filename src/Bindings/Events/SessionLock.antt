-- ===== src/Bindings/Events/SessionLock.antt =====
-- The event structs of sessionlock/ext_session_lock_v1.go. A pointer field is `none` for nil; an int32 and a fixed number are the
-- 32 bits on the wire.
use sysc_wayland.Base.{ℕ}

pub data SessionLockEvent : Type 0 where
  locked : SessionLockEvent
  finished : SessionLockEvent

pub data SessionLockSurfaceEvent : Type 0 where
  configure : ℕ → ℕ → ℕ → SessionLockSurfaceEvent
