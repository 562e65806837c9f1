-- ===== src/Bindings/Events/Idle.antt =====
-- The event structs of idle/ext_idle_notify.go. A pointer field is `none` for nil; an int32 and a fixed number are the
-- 32 bits on the wire.

pub data IdleNotificationEvent : Type 0 where
  idled : IdleNotificationEvent
  resumed : IdleNotificationEvent
