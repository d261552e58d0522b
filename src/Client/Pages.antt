-- ===== src/Client/Pages.antt =====
-- crates/rustmistmcp-core/src/client.rs: the page headers and the cursor of the next page.
use rustmistmcp.Prelude.{
  ℕ, ◌+◌, ◌-◌, ◌*◌, ◌^◌, min, Bool, true, false, not, ◌||◌, Option, none, some, String, Result, ok,
  err, ltb, leb, ◌==◌, if◌then◌else◌, is_empty,
}
use rustmistmcp.Prelude.Maps
use rustmistmcp.Json.{Value, get_key, as_str}
use rustmistmcp.Catalog.{PaginationMode, no_pages, page_limit, search_after}
use rustmistmcp.Pagination
use rustmistmcp.Pagination.{MistCursor, parse_u64}
use rustmistmcp.Request.{MistResponseBody, json, text, binary, empty, MistPageInfo}
use rustmistmcp.Request.Checks.{decimal}
use rustmistmcp.Client.{HttpResponse, HttpMistClient, header_number}

abbrev pub is_absent : Option ℕ → Bool
is_absent none = true
is_absent (some n) = false

unfoldable pub parse_page_info : HttpResponse → Option MistPageInfo
parse_page_info r =
    let page = header_number r "X-Page-Page" in
    let limit = header_number r "X-Page-Limit" in
    let total = header_number r "X-Page-Total" in
    if not (is_absent page) || not (is_absent limit) || not (is_absent total)
    then some (record { page = page; limit = limit; total = total })
    else none

-- `Result::ok`
abbrev pub to_option : {E A : Type 0} → Result E A → Option A
to_option (ok a) = some a
to_option (err e) = none

abbrev pub and_then : {A B : Type 0} → Option A → (A → Option B) → Option B
and_then none f = none
and_then (some a) f = f a

abbrev pub non_empty : String → Option String
non_empty s = if is_empty s then none else some s

unfoldable pub extract_search_after_cursor : HttpMistClient → Value → String → Option MistCursor
extract_search_after_cursor c value operation_id = and_then (get_key "next" value) (λ field.
    and_then (as_str field) (λ next. and_then (non_empty next) (λ url.
      and_then (c.joined_query url) (λ pairs. and_then (Maps.get "search_after" pairs) (λ after.
        and_then (non_empty after)
          (λ found. to_option (Pagination.new operation_id c.base_url search_after found)))))))

-- `u64::saturating_mul` and `u64::checked_add`
abbrev pub saturating_mul : ℕ → ℕ → ℕ
saturating_mul a b = min (a * b) (2 ^ 64 - 1)

abbrev pub checked_add : ℕ → ℕ → Option ℕ
checked_add a b = if ltb (a + b) (2 ^ 64) then some (a + b) else none

-- The cursor of the next page, where the pages so far do not reach the total.
unfoldable pub next_page : String → String → ℕ → ℕ → ℕ → Option MistCursor
next_page operation_id origin page limit total =
    if (limit == 0) || leb total (saturating_mul page limit)
    then none
    else and_then (checked_add page 1)
        (λ next. to_option (Pagination.new operation_id origin page_limit (decimal 20 next)))

unfoldable pub page_cursor : HttpMistClient → String → Option MistPageInfo → Option MistCursor
page_cursor c operation_id info = and_then info (λ p. and_then p.page (λ page.
    and_then p.limit
      (λ limit. and_then p.total (λ total. next_page operation_id c.base_url page limit total))))

abbrev pub search_cursor : HttpMistClient → String → MistResponseBody → Option MistCursor
search_cursor c operation_id (json value) = extract_search_after_cursor c value operation_id
search_cursor c operation_id (text value) = none
search_cursor c operation_id (binary value) = none
search_cursor c operation_id empty = none

abbrev pub cursor_of_mode :
    HttpMistClient
    → String
    → MistResponseBody
    → Option MistPageInfo
    → PaginationMode
    → Option MistCursor
cursor_of_mode c operation_id body page no_pages = none
cursor_of_mode c operation_id body page search_after = search_cursor c operation_id body
cursor_of_mode c operation_id body page page_limit = page_cursor c operation_id page

unfoldable pub derive_next_cursor :
    HttpMistClient → String → MistResponseBody → Option MistPageInfo → Option MistCursor
derive_next_cursor c operation_id body page =
    and_then (c.catalog operation_id)
      (λ operation. cursor_of_mode c operation_id body page operation.pagination)
