-- ===== src/ExecuteClass/Partition.antt =====
-- The three lists do not overlap, and each operation gets the class of the list that it is in.
use rustmistmcp.Prelude.{
  ◌≡◌, refl, ◌↔◌, inl, inr, Bool, true, false, not, List, [], ◌∷◌, String, arith, contains_text,
  eq_iff, In, if◌then◌else◌, ◌&&◌,
}
use rustmistmcp.ExecuteClass.{
  ExecuteClass, excluded, diagnostic, gated, excluded_execute_operations,
  diagnostic_execute_operations, gated_execute_operations, execute_class,
}

pub contains_text_iff : (xs : List String) (s : String) → (contains_text xs s ≡ true) ↔ In s xs
contains_text_iff [] s = ground arith
contains_text_iff (x ∷ xs) s = ground (arith, eq_iff x s, contains_text_iff xs s)

-- No text of the first list is in the second.
disjoint : List String → List String → Bool
disjoint [] ys = true
disjoint (x ∷ xs) ys = not (contains_text ys x) && disjoint xs ys

disjoint-In :
    (xs ys : List String) (s : String)
    → disjoint xs ys ≡ true
    → In s xs
    → contains_text ys s ≡ false
unfolding disjoint
disjoint-In [] ys s h m = absurd m
disjoint-In (x ∷ xs) ys s h (inl e) = rw e (ground arith)
disjoint-In (x ∷ xs) ys s h (inr m) = disjoint-In xs ys s (ground arith) m

diagnostic_not_excluded : disjoint diagnostic_execute_operations excluded_execute_operations ≡ true
unfolding disjoint
diagnostic_not_excluded = refl

gated_not_excluded : disjoint gated_execute_operations excluded_execute_operations ≡ true
unfolding disjoint
gated_not_excluded = refl

gated_not_diagnostic : disjoint gated_execute_operations diagnostic_execute_operations ≡ true
unfolding disjoint
gated_not_diagnostic = refl

true-ne-false : (b : Bool) → b ≡ true → b ≡ false → ⊥
true-ne-false b t f = cc

-- The classification over any two lists.
classify : List String → List String → String → ExecuteClass
classify out probes s =
    if contains_text out s then excluded else if contains_text probes s then diagnostic else gated

abbrev Classified : List String → List String → String → ExecuteClass → Type 0
Classified out probes s c =
    ((c ≡ excluded) ↔ In s out)
    × ((c ≡ diagnostic) ↔ In s probes)
    × ((c ≡ gated) ↔ ((¬ In s out) × (¬ In s probes)))

classify-Classified :
    (out probes : List String) (s : String)
    → disjoint probes out ≡ true
    → Classified out probes s (classify out probes s)
unfolding classify
classify-Classified out probes s d =
    ground (arith, contains_text_iff out s, contains_text_iff probes s, disjoint-In probes out s d)

-- An operation is excluded exactly when it is in the first list, diagnostic exactly when it is in
-- the second, and gated exactly when it is in neither: also one that no list names.
pub execute_class_iff :
    (s : String)
    → ((execute_class s ≡ excluded) ↔ In s excluded_execute_operations)
      × ((execute_class s ≡ diagnostic) ↔ In s diagnostic_execute_operations)
      × ((execute_class s ≡ gated)
          ↔ ((¬ In s excluded_execute_operations) × (¬ In s diagnostic_execute_operations)))
unfolding execute_class classify
execute_class_iff s =
    classify-Classified excluded_execute_operations diagnostic_execute_operations s
      diagnostic_not_excluded

-- An operation of the third list is gated: its name stands in neither of the others.
pub gated_operation_class : (s : String) → In s gated_execute_operations → execute_class s ≡ gated
gated_operation_class s m = (execute_class_iff s).2.1 (
  λ out.
      true-ne-false _ ((contains_text_iff excluded_execute_operations s).1 out)
        (disjoint-In _ _ s gated_not_excluded m),
  λ probe.
      true-ne-false _ ((contains_text_iff diagnostic_execute_operations s).1 probe)
        (disjoint-In _ _ s gated_not_diagnostic m),
)
