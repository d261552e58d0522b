-- ===== src/Client.antt =====
-- crates/rustmistmcp-core/src/client.rs: `HttpMistClient`, from the request to the URL, the sends with
-- their retries, and the response with its cursor.
pub mod Pages
pub mod Sends
pub mod Urls
pub mod Retries
pub mod Charged
pub mod Walk
mod Examples
use rustmistmcp.Prelude.{
  ℕ, zero, suc, ◌+◌, ◌-◌, ◌*◌, ◌^◌, ◌%◌, min, Bool, true, false, not, ◌||◌, List, [], ◌∷◌, ◌++◌,
  length, Option, none, some, String, Result, ok, err, ◌>>=◌, ◌>>◌, refuse_if, ok_or, map_err, ltb,
  leb, ◌==◌, if◌then◌else◌, append_text, codes, contains_codes, replace_from, is_prefix, str_eq,
  is_empty,
}
use rustmistmcp.Prelude.Maps
use rustmistmcp.RateLimit
use rustmistmcp.RateLimit.{
  RateLimitBudget, BudgetStatus, BudgetExhausted, CallPriority, Clock, try_acquire,
}
use rustmistmcp.Json.{Value, null, bool, num, str, arr, obj, Number, get_key, as_str}
use rustmistmcp.Catalog.{PaginationMode, no_pages, page_limit, search_after, MistOperation}
use rustmistmcp.Error.{
  MistError, unknown_operation, invalid_request, invalid_cursor, rate_limited, endpoint_retired,
  service, budget_exhausted,
}
use rustmistmcp.Pagination
use rustmistmcp.Pagination.{MistCursor, parse_u64}
use rustmistmcp.Request.{
  MistRequest, MistResponse, MistResponseBody, json, text, binary, empty, MistPageInfo,
}
use rustmistmcp.Request.Checks.{decimal}

-- `HttpMistClientConfig`, as far as the code reads it here; waits are in milliseconds.
pub record HttpMistClientConfig : Type 0 where
  pub hourly_call_budget : ℕ
  pub human_reserve : ℕ
  pub max_429_retries : ℕ
  pub max_retry_wait : ℕ

abbrev pub default_config : HttpMistClientConfig
default_config = record {
  hourly_call_budget = 5_000;
  human_reserve = 250;
  max_429_retries = 2;
  max_retry_wait = 30_000;
}

-- `mecmcp_http::HttpResponse`
pub record HttpResponse : Type 0 where
  pub status : ℕ
  pub header_str : String → Option String
  pub body : List ℕ

-- The URL of a request: the origin with its path, and the pairs of the query.
pub record Url : Type 0 where
  pub path : String
  pub pairs : List (String × String)

-- `mecmcp_http::Method`
pub data Method : Type 0 where
  get post put patch delete : Method

pub record HttpRequest : Type 0 where
  pub method : Method
  pub url : Url
  pub body : Option (List ℕ)

-- The client, and the code outside the repository that it calls: the crate url (the origin, the setting
-- of a path, the query of a URL that is joined to the base), serde_json and UTF-8, and mecmcp_http:
-- whether it takes a URL and the secret header, and its sends, of which the n-th of a call may answer as
-- it likes.
pub record HttpMistClient : Type 0 where
  pub catalog : String → Option MistOperation
  pub base_url : String
  pub max_429_retries : ℕ
  pub max_retry_wait : ℕ
  pub set_path : List ℕ → String
  pub joined_query : String → Option (List (String × String))
  pub show_number : Number → String
  pub to_vec : Value → Option (List ℕ)
  pub accepts_url : Method → Url → Bool
  pub takes_secret : Method → Url → Bool
  pub from_slice : List ℕ → Option Value
  pub from_utf8 : List ℕ → Option String
  pub send : ℕ → HttpRequest → Result String HttpResponse

unfoldable pub cursor_query_key : PaginationMode → Option String
cursor_query_key search_after = some "search_after"
cursor_query_key page_limit = some "page"
cursor_query_key no_pages = none

abbrev pub placeholder : String → List ℕ
placeholder name = b'{' ∷ codes name ++ (b'}' ∷ [])

-- The loop over the path parameters, from the operation's template.
unfoldable pub expand_path : String → List ℕ → List (String × String) → Result MistError (List ℕ)
expand_path operation_id expanded [] = ok expanded
expand_path operation_id expanded ((name, value) ∷ path) = do
  refuse_if (not (contains_codes (placeholder name) expanded)) (
      invalid_request operation_id
        (append_text "path parameter " (append_text name " not in operation path")))
  expand_path operation_id (replace_from (placeholder name) (codes value) zero expanded) path

-- The text of one query value: nothing for null, and an error for a list or an object.
unfoldable pub query_text :
    HttpMistClient → String → String → Value → Result MistError (Option String)
query_text c operation_id key (str s) = ok (some s)
query_text c operation_id key (num n) = ok (some (c.show_number n))
query_text c operation_id key (bool b) = ok (some (if b then "true" else "false"))
query_text c operation_id key null = ok none
query_text c operation_id key (arr vs) = err (
    invalid_request operation_id
      (append_text "query parameter " (append_text key " must be string, number, or bool")))
query_text c operation_id key (obj fs) = err (
    invalid_request operation_id
      (append_text "query parameter " (append_text key " must be string, number, or bool")))

abbrev pub append_pair : String → Option String → List (String × String) → List (String × String)
append_pair key none pairs = pairs
append_pair key (some value) pairs = (key, value) ∷ pairs

unfoldable pub query_pairs :
    HttpMistClient → String → List (String × Value) → Result MistError (List (String × String))
query_pairs c operation_id [] = ok []
query_pairs c operation_id ((key, value) ∷ query) = do
  shown ← query_text c operation_id key value
  pairs ← query_pairs c operation_id query
  ok (append_pair key shown pairs)

-- A continuation replaces the value that the stored query has.
unfoldable pub effective_query :
    Option MistCursor → List (String × Value) → Result MistError (List (String × Value))
effective_query none query = ok query
effective_query (some cursor) query =
    ok_or (cursor_query_key cursor.mode) (invalid_cursor "cursor pagination mode must not be none")
    >>= λ key. ok (Maps.insert key (str cursor.value) query)

unfoldable pub build_url :
    HttpMistClient
    → String
    → List (String × String)
    → List (String × Value)
    → Option MistCursor
    → Result MistError Url
build_url c operation_id path query cursor = do
  operation ← ok_or (c.catalog operation_id) (unknown_operation operation_id)
  expanded ← expand_path operation_id (codes operation.path) path
  effective ← effective_query cursor query
  pairs ← query_pairs c operation_id effective
  ok (record { path = c.set_path expanded; pairs = pairs })

abbrev pub header_number : HttpResponse → String → Option ℕ
header_number r name = elim (r.header_str name) [
  | some value ↦ parse_u64 (codes value)
  | none ↦ none
]
