-- ===== src/Pagination/Binding.antt =====
-- What a cursor is bound to, and what its constructors guarantee.
use rustmistmcp.Prelude.{
  ℕ, ◌*◌, ◌≤◌, ◌≡◌, ◌≢◌, refl, ◌↔◌, inl, inr, true, false, List, Option, none, some, String, ok,
  codes, byte_len, arith, eq_iff, eq_refl, Option-cases,
}
use rustmistmcp.Json.{Value}
use rustmistmcp.Target.{MistTarget}
use rustmistmcp.Catalog.{PaginationMode, no_pages, page_limit, same_pagination}
use rustmistmcp.Pagination.{
  MistCursor, is_bad_page, parse_u64, new, validate_for, set_context, validate_encoded_size,
  with_request_context,
}

same_pagination_iff : (a b : PaginationMode) → (same_pagination a b ≡ true) ↔ (a ≡ b)
same_pagination_iff a b = ground arith

-- A cursor continues an operation exactly when it was made for that operation, at that origin, with
-- that mode.
pub validate_for_iff :
    (c : MistCursor) (operation_id : String) (mode : PaginationMode) (origin : String)
    → (validate_for c operation_id mode origin ≡ ok tt)
      ↔ ((c.operation_id ≡ operation_id) × (c.origin ≡ origin) × (c.mode ≡ mode))
unfolding validate_for
validate_for_iff c operation_id mode origin = ground (
  arith,
  eq_iff c.operation_id operation_id,
  eq_iff c.origin origin,
  same_pagination_iff c.mode mode,
)

-- The value of a page-limit cursor is a positive number below 2^64.
abbrev pub IsPage : PaginationMode → String → Type 0
IsPage mode value = mode ≡ page_limit → (n : ℕ) × (parse_u64 (codes value) ≡ some n) × (1 ≤ n)

good_page : (o : Option ℕ) → is_bad_page o ≡ false → (n : ℕ) × (o ≡ some n) × (1 ≤ n)
good_page none h = cc
good_page (some n) h = (n, refl, ground arith)

-- A new cursor is bound to what it was made from, continues that operation and no other, is of a
-- paginated mode, and a page-limit cursor's value is a positive number.
pub new_sound :
    (operation_id origin : String) (mode : PaginationMode) (value : String) (c : MistCursor)
    → new operation_id origin mode value ≡ ok c
    → (validate_for c operation_id mode origin ≡ ok tt)
      × (mode ≢ no_pages)
      × (byte_len value ≤ 4096)
      × IsPage mode value
unfolding new validate_for
new_sound operation_id origin mode value c e =
    ground (arith, eq_refl operation_id, eq_refl origin, good_page (parse_u64 (codes value)))

module _ (encoded_len : MistCursor → Option ℕ) where
  -- The size check passes exactly where the cursor is written in at most 131,072 bytes.
  encoded_size_sound :
      (c : MistCursor)
      → validate_encoded_size encoded_len c ≡ ok tt
      → (n : ℕ) × (encoded_len c ≡ some n) × (n * 2 ≤ 262_144)
  unfolding validate_encoded_size
  encoded_size_sound c e = elim (Option-cases (encoded_len c)) [
    | inl failed ↦ ground (arith, failed)
    | inr (n, found) ↦ (n, found, ground (arith, found))
  ]

  attached :
      (c bound : MistCursor) (path : List (String × String)) (query : List (String × Value))
      (target : Option MistTarget)
      → with_request_context encoded_len c path query target ≡ ok bound
      → (bound ≡ set_context c (record { path = path; query = query; target = target }))
        × (validate_encoded_size encoded_len bound ≡ ok tt)
  unfolding with_request_context
  attached c bound path query target e = ground arith

  -- Attaching a context changes nothing that a cursor is bound to, and the result fits the bound on
  -- its hexadecimal form.
  pub with_request_context_sound :
      (c bound : MistCursor) (path : List (String × String)) (query : List (String × Value))
      (target : Option MistTarget)
      → with_request_context encoded_len c path query target ≡ ok bound
      → ((operation_id : String) (mode : PaginationMode) (origin : String)
          → validate_for bound operation_id mode origin ≡ validate_for c operation_id mode origin)
        × (bound.context ≡ some (record { path = path; query = query; target = target }))
        × ((n : ℕ) × (encoded_len bound ≡ some n) × (n * 2 ≤ 262_144))
  unfolding validate_for
  with_request_context_sound c bound path query target e =
      let (same, fits) = attached c bound path query target e in
      (λ operation_id mode origin. rw same refl, rw same refl, encoded_size_sound bound fits)
