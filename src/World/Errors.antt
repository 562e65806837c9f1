-- ===== src/World/Errors.antt =====
-- Errors and panics of the client package as data, one constructor for each place that makes one.
use sysc_wayland.Base.{ℕ, Bool, true, false, List, Option}

-- The panics of client/context.go, client/event.go and the generated decoders. `out_of_range` is
-- the runtime's, and `app` any panic of a handler of the application.
pub data Panic : Type 0 where
  id_space_exhausted : Panic
  invalid_server_id duplicate_id : ℕ → Panic
  out_of_range missing_nul unsupported_opcode : Panic
  truncated_length truncated_body truncated_padding : Panic
  app : ℕ → Panic

pub data Error : Type 0 where
  read_timeout unable_to_read partial_frame unable_to_sync roundtrip_failed : Error → Error
  sender_not_found sender_unsupported : ℕ → Error
  panic_handling : ℕ → ℕ → Panic → Error
  display_error : ℕ → ℕ → List ℕ → Error
  header body : Error → Error
  sender_zero : Error
  invalid_size unaligned_size : ℕ → Error
  eof unexpected_eof deadline no_progress : Error
  truncated_message : Error
  overlong_read : ℕ → ℕ → Error
  oob_count : ℕ → Error
  bad_control_message bad_unix_rights : Error
  frame_size : ℕ → Error
  invalid_count invalid_ancillary : Option ℕ → Error
  short_ancillary : ℕ → ℕ → Error
  io : ℕ → Error

-- `errors.Is(err, ErrReadTimeout)`, down the chain of wrapped errors.
unfoldable pub is_read_timeout : Error → Bool
is_read_timeout (read_timeout e) = true
is_read_timeout (unable_to_read e) = is_read_timeout e
is_read_timeout (partial_frame e) = is_read_timeout e
is_read_timeout (unable_to_sync e) = is_read_timeout e
is_read_timeout (roundtrip_failed e) = is_read_timeout e
is_read_timeout (header e) = is_read_timeout e
is_read_timeout (body e) = is_read_timeout e
is_read_timeout _ = false

-- `isDeadline`: a `net.Error` whose `Timeout` is true, down the chain of wrapped errors.
unfoldable pub is_deadline : Error → Bool
is_deadline deadline = true
is_deadline (read_timeout e) = is_deadline e
is_deadline (unable_to_read e) = is_deadline e
is_deadline (partial_frame e) = is_deadline e
is_deadline (unable_to_sync e) = is_deadline e
is_deadline (roundtrip_failed e) = is_deadline e
is_deadline (header e) = is_deadline e
is_deadline (body e) = is_deadline e
is_deadline _ = false
