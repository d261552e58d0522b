-- ===== src/Catalog.antt =====
-- crates/rustmistmcp-core/src/catalog.rs: the types of an operation record, and the functions that
-- derive and check its fields.
pub mod Derived
pub mod Selected
pub mod Checked
pub mod Verified
pub mod ToolName
pub mod Named
pub mod Record
pub mod Valid
mod Examples
use rustmistmcp.Json.{Value}
use rustmistmcp.Prelude.{ℕ, Bool, List, Option, String, ◌==◌}

pub data MistCapability : Type 0 where
  ordinary_read privileged_read create update delete execute : MistCapability

abbrev pub MistAction : Type 0
MistAction = MistCapability

-- The place in the derived order, by which two classifications are compared.
abbrev pub capability_rank : MistCapability → ℕ
capability_rank ordinary_read = 0
capability_rank privileged_read = 1
capability_rank create = 2
capability_rank update = 3
capability_rank delete = 4
capability_rank execute = 5

abbrev pub same_capability : MistCapability → MistCapability → Bool
same_capability a b = capability_rank a == capability_rank b

pub data TargetSelector : Type 0 where
  no_target org_target site_target msp_target : TargetSelector

pub data PaginationMode : Type 0 where
  no_pages page_limit search_after : PaginationMode

abbrev pub pagination_rank : PaginationMode → ℕ
pagination_rank no_pages = 0
pagination_rank page_limit = 1
pagination_rank search_after = 2

abbrev pub same_pagination : PaginationMode → PaginationMode → Bool
same_pagination a b = pagination_rank a == pagination_rank b

pub data VerificationPolicy : Type 0 where
  no_verification api_acknowledged follow_up_read : VerificationPolicy

pub data CatalogError : Type 0 where
  invalid : String → CatalogError

pub record MistParameter : Type 0 where
  pub name : String
  pub location : String
  pub required : Bool
  pub schema : Value

pub record MistOperation : Type 0 where
  pub operation_key : String
  pub operation_id : String
  pub tool : String
  pub method : String
  pub path : String
  pub scope : String
  pub summary : String
  pub openapi_tags : List String
  pub capability : MistCapability
  pub action : MistAction
  pub classification_reason : String
  pub classification_source_fingerprint : String
  pub parameters : List MistParameter
  pub target_selectors : List TargetSelector
  pub request_media_types : List String
  pub request_schemas : List (String × Value)
  pub request_body_required : Bool
  pub response_media_types : List String
  pub responses : List (String × List (String × Value))
  pub pagination : PaginationMode
  pub verification : VerificationPolicy
  pub follow_up_operation_id : Option String
  pub verification_predicate : Option String
  pub verification_reason : Option String
  pub transport : String
  pub source_fingerprint : String
