-- ===== src/Prelude/Maps.antt =====
-- `BTreeMap<String, V>` as an association list. Its order of iteration is never read by what is
-- modelled with it, so an insertion keeps the place of an old key and puts a new one last.
use mathlib.Core.Option.{Option, none, some}
use mathlib.Core.Bool.{Bool, true, false}
use text.Mathlib.TextEquality.{eq_iff}
use Prim.Native.String.{String}
use native.Mathlib.Omega.{arith}
use mathlib.Core.Path.{◌≡◌, refl}
use text.Mathlib.Text.{◌==◌}
use mathlib.Core.List.{List, [], ◌∷◌}
use Prim.Native.Nat.{suc, ◌+◌, ◌≤◌}
use rustmistmcp.Prelude.Lists.{length, All}
use rustmistmcp.Prelude.Tests.{if◌then◌else◌}

module _ {ℓ} {V : Type ℓ} where
  unfoldable pub get : String → List (String × V) → Option V
  get k [] = none
  get k ((j, v) ∷ m) = if j == k then some v else get k m

  unfoldable pub insert : String → V → List (String × V) → List (String × V)
  insert key new [] = (key, new) ∷ []
  insert key new ((other, old) ∷ rest) =
      if other == key then (key, new) ∷ rest else (other, old) ∷ insert key new rest

  abbrev pub has_value : Option V → Bool
  has_value none = false
  has_value (some v) = true

  -- `BTreeMap::contains_key`
  abbrev pub contains_key : String → List (String × V) → Bool
  contains_key k m = has_value (get k m)

  -- `BTreeMap::retain`, by the value
  unfoldable pub retain : (V → Bool) → List (String × V) → List (String × V)
  retain keep [] = []
  retain keep ((k, v) ∷ m) = let rest = retain keep m in if keep v then (k, v) ∷ rest else rest

  pub get-insert :
      (k j : String) (v : V) (m : List (String × V))
      → get j (insert k v m) ≡ (if k == j then some v else get j m)
  unfolding get insert
  get-insert k j v [] = refl
  get-insert k j v ((i, w) ∷ m) =
      ground (arith, eq_iff k j, eq_iff i k, eq_iff i j, get-insert k j v m)

  pub length-insert :
      (k : String) (v : V) (m : List (String × V))
      → length (insert k v m) ≡ (if contains_key k m then length m else suc (length m))
  unfolding get insert
  length-insert k v [] = refl
  length-insert k v ((i, w) ∷ m) = ground (arith, length-insert k v m)

  pub length-insert-le :
      (k : String) (v : V) (m : List (String × V)) → length (insert k v m) ≤ length m + 1
  unfolding insert
  length-insert-le k v [] = omega arith
  length-insert-le k v ((i, w) ∷ m) = ground (arith, length-insert-le k v m)

  pub length-retain-le :
      (keep : V → Bool) (m : List (String × V)) → length (retain keep m) ≤ length m
  unfolding retain
  length-retain-le keep [] = omega arith
  length-retain-le keep ((k, v) ∷ m) = ground (arith, length-retain-le keep m)

module _ {ℓ κ} {V : Type ℓ} (P : String × V → Type κ) where
  pub insert-All :
      (k : String) (v : V) (m : List (String × V)) → P (k, v) → All P m → All P (insert k v m)
  unfolding insert
  insert-All k v [] p h = (p, tt)
  insert-All k v ((i, w) ∷ m) p (q, h) = ground (arith, insert-All k v m p h)

  pub retain-All : (keep : V → Bool) (m : List (String × V)) → All P m → All P (retain keep m)
  unfolding retain
  retain-All keep [] h = tt
  retain-All keep ((k, v) ∷ m) (q, h) = ground (arith, retain-All keep m h)
