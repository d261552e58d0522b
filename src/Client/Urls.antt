-- ===== src/Client/Urls.antt =====
-- The query of a URL: the request's, with the continuation in place of the value it replaces.
use rustmistmcp.Prelude.{
  ◌≡◌, refl, ap, sym, ◌∙◌, inl, inr, Bool, true, false, List, [], ◌∷◌, Option, none, some, String,
  ok, arith, Result-cases, Option-cases, ok-inj, codes, str_eq, eq_iff, if◌then◌else◌, subst,
}
use rustmistmcp.Prelude.Maps
use rustmistmcp.Prelude.Maps.{get-insert}
use rustmistmcp.Json.{Value, null, bool, num, str, arr, obj}
use rustmistmcp.Pagination.{MistCursor}
use rustmistmcp.Client.{
  HttpMistClient, Url, cursor_query_key, query_text, append_pair, query_pairs, effective_query,
  expand_path, build_url,
}

-- No key stands twice, as in every `BTreeMap`.
abbrev pub IsKeyed : List (String × Value) → Type 0
IsKeyed [] = Unit
IsKeyed ((k, v) ∷ m) = (Maps.get k m ≡ none) × IsKeyed m

insert-IsKeyed :
    (k : String) (v : Value) (m : List (String × Value)) → IsKeyed m → IsKeyed (Maps.insert k v m)
unfolding Maps.insert Maps.get
insert-IsKeyed k v [] h = (refl, tt)
insert-IsKeyed k v ((j, w) ∷ m) (absent, h) =
    ground (arith, eq_iff j k, eq_iff k j, get-insert k j v m, insert-IsKeyed k v m h)

module _ (c : HttpMistClient) where
  -- The text of a value in a query; null, a list and an object have none.
  abbrev pub shown : Value → Option String
  shown (str s) = some s
  shown (num n) = some (c.show_number n)
  shown (bool b) = some (if b then "true" else "false")
  shown null = none
  shown (arr vs) = none
  shown (obj fs) = none

  abbrev pub shown_at : Option Value → Option String
  shown_at none = none
  shown_at (some v) = shown v

  query_text-shown :
      (operation_id key : String) (v : Value) (o : Option String)
      → query_text c operation_id key v ≡ ok o
      → o ≡ shown v
  unfolding query_text
  query_text-shown operation_id key (str s) o e = sym (ok-inj e)
  query_text-shown operation_id key (num n) o e = sym (ok-inj e)
  query_text-shown operation_id key (bool b) o e = sym (ok-inj e)
  query_text-shown operation_id key null o e = sym (ok-inj e)
  query_text-shown operation_id key (arr vs) o e = cc
  query_text-shown operation_id key (obj fs) o e = cc

  get-append_pair :
      (j key : String) (o : Option String) (pairs : List (String × String)) (rest : Option String)
      → Maps.get j pairs ≡ rest
      → (str_eq key j ≡ true → rest ≡ none)
      → Maps.get j (append_pair key o pairs) ≡ (if str_eq key j then o else rest)
  unfolding Maps.get
  get-append_pair j key none pairs rest e absent = ground (arith, e, absent)
  get-append_pair j key (some v) pairs rest e absent = ground (arith, e)

  shown_at-if :
      (b : Bool) (v : Value) (o : Option String) (later : Option Value)
      → o ≡ shown v
      → (if b then o else shown_at later) ≡ shown_at (if b then some v else later)
  shown_at-if true v o later e = e
  shown_at-if false v o later e = refl

  get-query_pairs :
      (operation_id j : String) (query : List (String × Value)) (pairs : List (String × String))
      → IsKeyed query
      → query_pairs c operation_id query ≡ ok pairs
      → Maps.get j pairs ≡ shown_at (Maps.get j query)
  unfolding query_pairs Maps.get
  get-query_pairs operation_id j [] pairs h e = ground (arith, e)
  get-query_pairs operation_id j ((key, v) ∷ query) pairs (absent, h) e =
      elim (Result-cases (query_text c operation_id key v)) [
        | inr (failure, e1) ↦ absurd (ground (arith, e, e1))
        | inl (o, e1) ↦ elim (Result-cases (query_pairs c operation_id query)) [
          | inr (failure, e2) ↦ absurd (ground (arith, e, e1, e2))
          | inl (later, e2) ↦
              let made : append_pair key o later ≡ pairs = ok-inj (rw (e1, e2, query_pairs) at e) in
              ap (Maps.get j) (sym made)
              ∙ get-append_pair j key o later (shown_at (Maps.get j query))
                  (get-query_pairs operation_id j query later h e2)
                  (λ same.
                    ap shown_at
                      (subst (λ k. Maps.get k query ≡ none) ((eq_iff key j).0 same) absent))
              ∙ shown_at-if (str_eq key j) v o (Maps.get j query)
                  (query_text-shown operation_id key v o e1)
        ]
      ]

  -- The value that the query sends at a key: the continuation's at its own, else the request's.
  abbrev pub sent_value : Option MistCursor → List (String × Value) → String → Option String
  sent_value none query j = shown_at (Maps.get j query)
  sent_value (some cursor) query j = elim (cursor_query_key cursor.mode) [
    | none ↦ shown_at (Maps.get j query)
    | some key ↦ if str_eq key j then some cursor.value else shown_at (Maps.get j query)
  ]

  effective_query-sent :
      (cursor : Option MistCursor) (query effective : List (String × Value)) (j : String)
      → IsKeyed query
      → effective_query cursor query ≡ ok effective
      → IsKeyed effective × (shown_at (Maps.get j effective) ≡ sent_value cursor query j)
  unfolding effective_query
  effective_query-sent none query effective j h e =
      (subst IsKeyed (ok-inj e) h, ap (λ q. shown_at (Maps.get j q)) (sym (ok-inj e)))
  effective_query-sent (some cursor) query effective j h e =
      elim (Option-cases (cursor_query_key cursor.mode)) [
        | inl e1 ↦ absurd (ground (arith, e, e1))
        | inr (key, e1) ↦
            let made : Maps.insert key (str cursor.value) query ≡ effective =
              ok-inj (rw (e1, effective_query) at e) in
            (
              subst IsKeyed made (insert-IsKeyed key (str cursor.value) query h),
              ap (λ q. shown_at (Maps.get j q)) (sym made)
                  ∙ ap shown_at (get-insert key j (str cursor.value) query)
                  ∙ rw (e1, sent_value)
                      (sym (
                        shown_at-if (str_eq key j) (str cursor.value) (some cursor.value)
                          (Maps.get j query) refl)),
            )
      ]

  -- A URL that is built sends, at each key, the continuation's value at the key of its mode, and the
  -- request's own value elsewhere: a stale page or search_after of the request is replaced.
  pub build_url-sent_value :
      (operation_id j : String) (path : List (String × String)) (query : List (String × Value))
      (cursor : Option MistCursor) (url : Url)
      → IsKeyed query
      → build_url c operation_id path query cursor ≡ ok url
      → Maps.get j url.pairs ≡ sent_value cursor query j
  unfolding build_url
  build_url-sent_value operation_id j path query cursor url h e =
      elim (Option-cases (c.catalog operation_id)) [
        | inl e1 ↦ absurd (ground (arith, e, e1))
        | inr (operation, e1) ↦
            elim (Result-cases (expand_path operation_id (codes operation.path) path)) [
              | inr (failure, e2) ↦ absurd (ground (arith, e, e1, e2))
              | inl (expanded, e2) ↦ elim (Result-cases (effective_query cursor query)) [
                | inr (failure, e3) ↦ absurd (ground (arith, e, e1, e2, e3))
                | inl (effective, e3) ↦ elim (Result-cases (query_pairs c operation_id effective)) [
                  | inr (failure, e4) ↦ absurd (ground (arith, e, e1, e2, e3, e4))
                  | inl (pairs, e4) ↦
                      let made = ok-inj (rw (e1, e2, e3, e4, build_url) at e) in
                      let (keyed, same) = effective_query-sent cursor query effective j h e3 in
                      ap (λ u. Maps.get j u.pairs) (sym made)
                      ∙ get-query_pairs operation_id j effective pairs keyed e4
                      ∙ same
                ]
              ]
            ]
      ]
