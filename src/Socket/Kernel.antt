-- ===== src/Socket/Kernel.antt =====
-- What client/event.go uses of golang.org/x/sys/unix: `ParseSocketControlMessage`, which gives the
-- control messages or fails, `ParseUnixRights`, which gives a message's descriptors and whether it
-- failed, and the size of the control buffer, `CmsgSpace` of 256 descriptors.
use sysc_wayland.Base.{ℕ, Bool, List, Option}

pub record Unix : Type 1 where
  pub Scm : Type 0
  pub parse_scms : List ℕ → Option (List Scm)
  pub parse_rights : Scm → List ℕ × Bool
  pub oob_space : ℕ
