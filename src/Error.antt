-- ===== src/Error.antt =====
-- crates/rustmistmcp-core/src/client.rs: the errors of a call.
use rustmistmcp.Prelude.{ℕ, Option, String}

pub data MistError : Type 0 where
  unknown_operation : String → MistError
  invalid_request invalid_response : String → String → MistError
  invalid_cursor : String → MistError
  rate_limited : Option ℕ → MistError
  transport_unavailable : MistError
  endpoint_retired : String → MistError
  service : String → MistError
  budget_exhausted : ℕ → ℕ → ℕ → MistError
