-- ===== src/Pagination.antt =====
-- crates/rustmistmcp-core/src/pagination.rs: continuation cursors, bound to an operation, an origin
-- and a pagination mode. An origin is its text, `Url::as_str`.
pub mod Binding
mod Examples
use rustmistmcp.Prelude.{
  ℕ, ◌+◌, ◌-◌, ◌*◌, ◌^◌, ◌≤◌, ◌&&◌, ◌||◌, Bool, true, false, not, List, [], ◌∷◌, Option, none, some,
  String, Result, ok, err, ◌>>=◌, ◌>>◌, refuse_if, codes, is_empty, byte_len, ltb, leb, ◌==◌,
  if◌then◌else◌, str_eq,
}
use rustmistmcp.Json.{Value}
use rustmistmcp.Target.{MistTarget}
use rustmistmcp.Catalog.{PaginationMode, no_pages, page_limit, search_after, same_pagination}
use rustmistmcp.Error.{MistError, invalid_cursor}

abbrev pub max_operation_id_bytes : ℕ
max_operation_id_bytes = 256

abbrev pub max_cursor_bytes : ℕ
max_cursor_bytes = 4096

abbrev pub max_encoded_cursor_bytes : ℕ
max_encoded_cursor_bytes = 262_144

pub record MistCursorContext : Type 0 where
  pub path : List (String × String)
  pub query : List (String × Value)
  pub target : Option MistTarget

pub record MistCursor : Type 0 where
  pub operation_id : String
  pub origin : String
  pub mode : PaginationMode
  pub value : String
  pub context : Option MistCursorContext

-- The digits of a decimal number, from a value on; nothing at 2^64 and more.
unfoldable pub parse_digits : ℕ → List ℕ → Option ℕ
parse_digits n [] = some n
parse_digits n (c ∷ cs) =
    let m = n * 10 + (c - b'0') in
    let later = parse_digits m cs in
    if leb b'0' c && leb c b'9' then (if ltb m (2 ^ 64) then later else none) else none

unfoldable pub parse_unsigned : List ℕ → Option ℕ
parse_unsigned [] = none
parse_unsigned (c ∷ cs) = parse_digits 0 (c ∷ cs)

-- `str::parse::<u64>`: an optional plus sign, and at least one digit.
unfoldable pub parse_u64 : List ℕ → Option ℕ
parse_u64 [] = none
parse_u64 (c ∷ cs) =
    let signed = parse_unsigned cs in if c == b'+' then signed else parse_unsigned (c ∷ cs)

-- `Ok(0) | Err(_)`
abbrev pub is_bad_page : Option ℕ → Bool
is_bad_page none = true
is_bad_page (some n) = n == 0

unfoldable pub new : String → String → PaginationMode → String → Result MistError MistCursor
new operation_id origin mode value = do
  refuse_if (is_empty operation_id || ltb max_operation_id_bytes (byte_len operation_id))
      (invalid_cursor "operation ID must contain 1-256 bytes")
  refuse_if (same_pagination mode no_pages) (invalid_cursor "pagination mode must not be none")
  refuse_if (is_empty value || ltb max_cursor_bytes (byte_len value))
      (invalid_cursor "cursor value must contain 1-4096 bytes")
  refuse_if (same_pagination mode page_limit && is_bad_page (parse_u64 (codes value)))
      (invalid_cursor "page-limit cursor value must be a positive integer")
  ok (record {
    operation_id = operation_id;
    origin = origin;
    mode = mode;
    value = value;
    context = none;
  })

unfoldable pub validate_for :
    MistCursor → String → PaginationMode → String → Result MistError (Unit {0})
validate_for c operation_id pagination origin = do
  refuse_if (not (str_eq c.operation_id operation_id))
      (invalid_cursor "cursor operation does not match request operation")
  refuse_if (not (str_eq c.origin origin))
      (invalid_cursor "cursor origin does not match request origin")
  refuse_if (not (same_pagination c.mode pagination))
      (invalid_cursor "cursor pagination mode does not match request operation")

abbrev pub set_context : MistCursor → MistCursorContext → MistCursor
set_context c context = record {
  operation_id = c.operation_id;
  origin = c.origin;
  mode = c.mode;
  value = c.value;
  context = some context;
}

-- `usize::saturating_mul`, on a product
abbrev pub saturate : ℕ → ℕ
saturate n = if ltb n (2 ^ 64) then n else 2 ^ 64 - 1

-- `encoded_len` is the length of the cursor's JSON, which serde_json writes; nothing if it fails.
module _ (encoded_len : MistCursor → Option ℕ) where
  unfoldable pub validate_encoded_size : MistCursor → Result MistError (Unit {0})
  validate_encoded_size c = elim (encoded_len c) [
    | none ↦ err (invalid_cursor "cursor could not be serialized")
    | some n ↦
        refuse_if (ltb max_encoded_cursor_bytes (saturate (n * 2)))
          (invalid_cursor "encoded cursor exceeds the 262144-byte bound")
  ]

  unfoldable pub with_request_context :
      MistCursor
      → List (String × String)
      → List (String × Value)
      → Option MistTarget
      → Result MistError MistCursor
  with_request_context c path query target =
      let bound = set_context c (record { path = path; query = query; target = target }) in
      validate_encoded_size bound >> ok bound
