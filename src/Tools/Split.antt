-- ===== src/Tools/Split.antt =====
-- The split of a tool's arguments into the path and the query.
use rustmistmcp.Prelude.{
  true, false, List, [], Option, none, some, String, ok, ◌≡◌, refl, ap, sym, ◌∙◌, inl, inr, arith,
  Bool-cases, Option-cases, contains_text, str_eq, eq_iff, if◌then◌else◌, ok-inj, subst,
}
use rustmistmcp.Prelude.Maps
use rustmistmcp.Prelude.Maps.{get-insert}
use rustmistmcp.Json
use rustmistmcp.Json.{Value, null, bool, num, str, arr, obj, Fields, end, field, as_str, is_null}
use rustmistmcp.Json.Entries.{IsMap}
use rustmistmcp.Tools.{NamedMaps, split_args, named_maps}

null-as_str : (v : Value) → is_null v ≡ true → as_str v ≡ none
null-as_str null h = refl
null-as_str (bool b) h = refl
null-as_str (num n) h = refl
null-as_str (str s) h = cc
null-as_str (arr vs) h = refl
null-as_str (obj fs) h = refl

module _ (names : List String) where
  -- What an argument gives to the path: its text, at a name of the path.
  abbrev pub path_value : String → Option Value → Option String
  path_value j none = none
  path_value j (some v) = if contains_text names j then as_str v else none

  -- What it gives to the query: itself, at another name, unless it is null.
  abbrev pub query_value : String → Option Value → Option Value
  query_value j none = none
  query_value j (some v) =
      if contains_text names j then none else if is_null v then none else some v

  abbrev pub or_old : {A : Type 0} → Option A → Option A → Option A
  or_old none old = old
  or_old (some a) old = some a

  or_old-none : {A : Type 0} (o : Option A) → or_old o none ≡ o
  or_old-none none = refl
  or_old-none (some a) = refl

  split_args-get :
      (j : String) (path : List (String × String)) (query : List (String × Value)) (args : Fields)
      (out : NamedMaps)
      → IsMap args
      → split_args names path query args ≡ ok out
      → (Maps.get j out.0 ≡ or_old (path_value j (Json.get j args)) (Maps.get j path))
        × (Maps.get j out.1 ≡ or_old (query_value j (Json.get j args)) (Maps.get j query))
  unfolding split_args Json.get
  split_args-get j path query end out h e =
      (ap (λ m. Maps.get j m.0) (sym (ok-inj e)), ap (λ m. Maps.get j m.1) (sym (ok-inj e)))
  split_args-get j path query (field name value args) out (absent, h) e =
      elim (Bool-cases (is_null value)) [
        | inl gone ↦
            let (p, q) = split_args-get j path query args out h (rw (gone, split_args) at e) in
            elim (Bool-cases (str_eq name j)) [
              | inr apart ↦ ground (arith, p, q, apart, gone, null-as_str value gone)
              | inl same ↦
                  let at_j : name ≡ j = (eq_iff name j).0 same in
                  let no_more : Json.get j args ≡ none =
                    subst (λ k. Json.get k args ≡ none) at_j absent in
                  ground (arith, p, q, same, no_more, gone, null-as_str value gone)
            ]
        | inr there ↦ elim (Bool-cases (contains_text names name)) [
          | inr other ↦
              let (p, q) =
                split_args-get j path (Maps.insert name value query) args out h
                  (rw (there, other, split_args) at e) in
              elim (Bool-cases (str_eq name j)) [
                | inr apart ↦ ground (arith, p, q, apart, there, get-insert name j value query)
                | inl same ↦
                    let at_j : name ≡ j = (eq_iff name j).0 same in
                    let no_more : Json.get j args ≡ none =
                      subst (λ k. Json.get k args ≡ none) at_j absent in
                    let listed : contains_text names j ≡ false =
                      subst (λ k. contains_text names k ≡ false) at_j other in
                    ground
                      (arith, p, q, same, no_more, there, get-insert name j value query, listed)
              ]
          | inl own ↦ elim (Option-cases (as_str value)) [
            | inl no_text ↦ absurd (ground (arith, e, there, own, no_text))
            | inr (text, e2) ↦
                let (p, q) =
                  split_args-get j (Maps.insert name text path) query args out h
                    (rw (there, own, e2, split_args) at e) in
                elim (Bool-cases (str_eq name j)) [
                  | inr apart ↦ ground (arith, p, q, apart, there, e2, get-insert name j text path)
                  | inl same ↦
                      let at_j : name ≡ j = (eq_iff name j).0 same in
                      let no_more : Json.get j args ≡ none =
                        subst (λ k. Json.get k args ≡ none) at_j absent in
                      let listed : contains_text names j ≡ true =
                        subst (λ k. contains_text names k ≡ true) at_j own in
                      ground
                        (arith, p, q, same, no_more, there, e2, get-insert name j text path, listed)
                ]
          ]
        ]
      ]

  -- The path gets the texts of the arguments that it names, and the query every other argument that is
  -- not null, each as it is given.
  pub named_maps-get :
      (j : String) (args : Fields) (path : List (String × String)) (query : List (String × Value))
      → IsMap args
      → named_maps (obj args) names ≡ ok (path, query)
      → (Maps.get j path ≡ path_value j (Json.get j args))
        × (Maps.get j query ≡ query_value j (Json.get j args))
  unfolding named_maps Maps.get
  named_maps-get j args path query h e =
      let (p, q) = split_args-get j [] [] args (path, query) h e in
      (
        p ∙ or_old-none (path_value j (Json.get j args)),
        q ∙ or_old-none (query_value j (Json.get j args)),
      )
