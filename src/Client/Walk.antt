-- ===== src/Client/Walk.antt =====
-- The cursor of the next page.
use rustmistmcp.Prelude.{
  ℕ, ◌+◌, ◌-◌, ◌*◌, ◌^◌, ◌≤◌, ◌<◌, ◌≡◌, inl, inr, false, ◌||◌, some, String, arith, Bool-cases, leb,
  ltb, ◌==◌,
}
use rustmistmcp.Catalog.{page_limit}
use rustmistmcp.Pagination
use rustmistmcp.Pagination.{MistCursor}
use rustmistmcp.Request.Checks.{decimal}
use rustmistmcp.Client.Pages.{saturating_mul, to_option, next_page}

times_suc : (page limit : ℕ) → (page + 1) * limit ≡ page * limit + limit
times_suc page limit = omega arith

pages_left :
    (page limit total : ℕ)
    → ((limit == 0) || leb total (saturating_mul page limit)) ≡ false
    → total < 2 ^ 64
    → (1 ≤ limit) × (page * limit < total)
pages_left page limit total e small = ground (arith, e)

less_left : (x limit total : ℕ) → 1 ≤ limit → x < total → total - (x + limit) < total - x
less_left x limit total h left = omega arith

new-value :
    (operation_id origin value : String) (c : MistCursor)
    → to_option (Pagination.new operation_id origin page_limit value) ≡ some c
    → c.value ≡ value
unfolding Pagination.new
new-value operation_id origin value c e = ground (arith, e)

-- A cursor to a next page is for a listing that has not been read to its end by its own page, limit and
-- total, and names the page after that one.
pub next_page_advances :
    (operation_id origin : String) (page limit total : ℕ) (c : MistCursor)
    → total < 2 ^ 64
    → next_page operation_id origin page limit total ≡ some c
    → (page * limit < total)
      × (total - (page + 1) * limit < total - page * limit)
      × (c.value ≡ decimal 20 (page + 1))
unfolding next_page Pagination.new
next_page_advances operation_id origin page limit total c small e =
    elim (Bool-cases ((limit == 0) || leb total (saturating_mul page limit))) [
      | inl done ↦ absurd (ground (arith, e, done))
      | inr more ↦
          let (some_limit, left) = pages_left page limit total more small in
          (
            left,
            rw (times_suc page limit) (less_left (page * limit) limit total some_limit left),
            elim (Bool-cases (ltb (page + 1) (2 ^ 64))) [
              | inr huge ↦ absurd (ground (arith, e, more, huge))
              | inl fits ↦
                  new-value operation_id origin (decimal 20 (page + 1)) c
                    (rw (more, fits, next_page) at e)
            ],
          )
    ]
