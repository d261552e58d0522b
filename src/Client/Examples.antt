-- ===== src/Client/Examples.antt =====
-- A listing of sites that is answered with 429 once, and then with a page.
use rustmistmcp.Prelude.{
  true, replace_from, ℕ, ◌≡◌, refl, ◌⊎◌, [], ◌∷◌, none, some, ok, ◌==◌, if◌then◌else◌,
  contains_codes,
}
use rustmistmcp.Prelude.Maps
use rustmistmcp.RateLimit.{RateLimitBudget, BudgetStatus, standard, Clock, try_acquire}
use rustmistmcp.Json.{str, num, unsigned}
use rustmistmcp.Catalog.{page_limit}
use rustmistmcp.Pagination
use rustmistmcp.Pagination.{MistCursor, parse_u64, parse_unsigned, parse_digits}
use rustmistmcp.Request.{MistRequest}
use rustmistmcp.Request.Checks.{decimal}
use rustmistmcp.Request.Examples.{catalog}
use rustmistmcp.Client.{
  HttpMistClient, HttpRequest, HttpResponse, Url, get, build_url, expand_path, effective_query,
  cursor_query_key, query_pairs, query_text,
}
use rustmistmcp.Client.Pages.{next_page}
use rustmistmcp.Client.Sends.{Sent, send_all, execute_as}
use rustmistmcp.Client.Urls.{IsKeyed, sent_value, build_url-sent_value}
use rustmistmcp.Client.Retries.{IsEnded, send_all-Ends}
use rustmistmcp.Client.Charged.{IsRefused, IsUnsent, IsSent, execute_as-cases}

abbrev response : ℕ → HttpResponse
response status = record { status = status; header_str = λ name. none; body = [] }

abbrev client : HttpMistClient
client = record {
  catalog = catalog;
  base_url = "https://api.mist.com/";
  max_429_retries = 2;
  max_retry_wait = 30_000;
  set_path = λ path. "/api/v1/orgs/a/sites";
  joined_query = λ next. none;
  show_number = λ n. "100";
  to_vec = λ value. none;
  accepts_url = λ method url. true;
  takes_secret = λ method url. true;
  from_slice = λ body. none;
  from_utf8 = λ body. none;
  send = λ n request. if n == 0 then ok (response 429) else ok (response 200);
}

abbrev continuation : MistCursor
continuation = record {
  operation_id = "listOrgSites";
  origin = "https://api.mist.com/";
  mode = page_limit;
  value = "2";
  context = none;
}

abbrev sites_request : MistRequest
sites_request = record {
  operation_id = "listOrgSites";
  path = ("org_id", "a") ∷ [];
  query = ("limit", num (unsigned 100)) ∷ ("page", str "1") ∷ [];
  json = none;
  cursor = some continuation;
}

abbrev url : Url
url = record { path = "/api/v1/orgs/a/sites"; pairs = ("limit", "100") ∷ ("page", "2") ∷ [] }

page_replaced :
    build_url client "listOrgSites" sites_request.path sites_request.query sites_request.cursor
    ≡ ok url
unfolding build_url expand_path contains_codes replace_from effective_query cursor_query_key
    Maps.insert query_pairs query_text
page_replaced = refl

limited_query : IsKeyed sites_request.query
unfolding Maps.get
limited_query = (refl, (refl, tt))

build_url-sent_value_example :
    Maps.get "page" url.pairs ≡ sent_value client (some continuation) sites_request.query "page"
build_url-sent_value_example =
    build_url-sent_value client "listOrgSites" "page" sites_request.path sites_request.query
      (some continuation) url limited_query page_replaced

abbrev prepared : HttpRequest
prepared = record { method = get; url = url; body = none }

send_all-Ends_example :
    (sent : Sent) × (send_all client prepared ≡ some sent) × IsEnded client prepared sent
send_all-Ends_example = send_all-Ends client prepared

abbrev clock : Clock
clock = record { checked = 10; restarted = 10 }

abbrev budget : RateLimitBudget
budget = record {
  hourly_limit = 5_000;
  human_reserve = 250;
  window = record { started_at = 0; used = 7 };
}

execute_as-cases_example :
    IsRefused client budget clock clock sites_request standard
      (execute_as client budget clock clock sites_request standard)
    ⊎ ((left : BudgetStatus) × ((try_acquire budget standard clock).1 ≡ ok left)
        × ((execute_as client budget clock clock sites_request standard).budget
            ≡ (try_acquire budget standard clock).0)
        × (IsUnsent client budget clock clock sites_request standard
              (execute_as client budget clock clock sites_request standard)
            ⊎ IsSent client budget clock clock sites_request standard
                (execute_as client budget clock clock sites_request standard)))
execute_as-cases_example = execute_as-cases client budget clock clock sites_request standard

abbrev next_cursor : MistCursor
next_cursor = record {
  operation_id = "listOrgSites";
  origin = "https://api.mist.com/";
  mode = page_limit;
  value = "3";
  context = none;
}

third_page : next_page "listOrgSites" "https://api.mist.com/" 2 100 250 ≡ some next_cursor
unfolding next_page Pagination.new decimal parse_u64 parse_unsigned parse_digits
third_page = refl
