-- ===== src/Json/Deep.antt =====
-- Properties that hold of a value at every depth.
use rustmistmcp.Prelude.{◌≡◌, some, String, arith}
use rustmistmcp.Json.{
  Value, null, bool, num, str, arr, obj, Items, nil, cons, Fields, end, field, get, insert, remove,
}

-- `P` holds of every string and `Q` of every key, however deep.
module _ (P Q : String → Type 0) where
  abbrev mutual
    pub Everywhere : Value → Type 0
    Everywhere null = Unit
    Everywhere (bool b) = Unit
    Everywhere (num n) = Unit
    Everywhere (str s) = P s
    Everywhere (arr vs) = EachItem vs
    Everywhere (obj fs) = EachField fs

    pub EachItem : Items → Type 0
    EachItem nil = Unit
    EachItem (cons v vs) = Everywhere v × EachItem vs

    pub EachField : Fields → Type 0
    EachField end = Unit
    EachField (field k v fs) = Q k × Everywhere v × EachField fs

  pub insert-EachField :
      (k : String) (v : Value) (fs : Fields)
      → Q k
      → Everywhere v
      → EachField fs
      → EachField (insert k v fs)
  unfolding insert
  insert-EachField k v end q p h = (q, p, tt)
  insert-EachField k v (field j w fs) q p (qj, pw, h) =
      ground (arith, insert-EachField k v fs q p h)

  pub remove-EachField : (k : String) (fs : Fields) → EachField fs → EachField (remove k fs)
  unfolding remove
  remove-EachField k end h = tt
  remove-EachField k (field j w fs) (qj, pw, h) = ground (arith, remove-EachField k fs h)

  pub get-Everywhere :
      (k : String) (fs : Fields) (v : Value) → EachField fs → get k fs ≡ some v → Everywhere v
  unfolding get
  get-Everywhere k end v h e = cc
  get-Everywhere k (field j w fs) v (qj, pw, h) e = ground (arith, get-Everywhere k fs v h)
