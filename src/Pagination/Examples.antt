-- ===== src/Pagination/Examples.antt =====
-- Cursors at concrete values.
use rustmistmcp.Prelude.{ℕ, ◌≡◌, refl, [], Option, none, some, ok, is_err, true}
use rustmistmcp.Catalog.{page_limit}
use rustmistmcp.Pagination.{
  MistCursor, MistCursorContext, parse_u64, parse_unsigned, parse_digits, new,
}

abbrev second_page : MistCursor
second_page = record {
  operation_id = "listOrgSites";
  origin = "https://api.mist.com/";
  mode = page_limit;
  value = "2";
  context = none;
}

second_page_made : new "listOrgSites" "https://api.mist.com/" page_limit "2" ≡ ok second_page
unfolding new parse_u64 parse_unsigned parse_digits
second_page_made = refl

page_zero_refused : is_err (new "listOrgSites" "https://api.mist.com/" page_limit "0") ≡ true
unfolding new parse_u64 parse_unsigned parse_digits
page_zero_refused = refl

word_refused : is_err (new "listOrgSites" "https://api.mist.com/" page_limit "-1") ≡ true
unfolding new parse_u64 parse_unsigned parse_digits
word_refused = refl

abbrev no_values : MistCursorContext
no_values = record { path = []; query = []; target = none }

abbrev short : MistCursor → Option ℕ
short c = some 120
