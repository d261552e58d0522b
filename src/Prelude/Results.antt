-- ===== src/Prelude/Results.antt =====
-- Rust's `Result`, with `?` as the bind of a `do` block.
use mathlib.Core.Path.{◌≡◌, refl}
use mathlib.Core.Logic.{◌↔◌, ◌⊎◌, inl, inr}
use mathlib.Core.Bool.{Bool, true, false}
use mathlib.Core.Option.{Option, none, some}

pub data Result {ℓ κ} (E : Type ℓ) (A : Type κ) : Type (ℓ ⊔ κ) where
  ok : A → Result E A
  err : E → Result E A

infixl 5 ◌>>=◌ ◌>>◌
abbrev pub ◌>>=◌ {ℓ κ μ} :
    {E : Type ℓ} {A : Type κ} {B : Type μ} → Result E A → (A → Result E B) → Result E B
ok a >>= f = f a
err e >>= f = err e

abbrev pub ◌>>◌ {ℓ κ} : {E : Type ℓ} {B : Type κ} → Result E (Unit {0}) → Result E B → Result E B
m >> k = m >>= λ _. k

-- `if refused { return Err(e) }`
abbrev pub refuse_if {ℓ} : {E : Type ℓ} → Bool → E → Result E (Unit {0})
refuse_if true e = err e
refuse_if false e = ok tt

-- `Option::ok_or`
abbrev pub ok_or {ℓ κ} : {E : Type ℓ} {A : Type κ} → Option A → E → Result E A
ok_or none e = err e
ok_or (some a) e = ok a

-- `Result::map_err`
abbrev pub map_err {ℓ κ μ} :
    {E : Type ℓ} {F : Type κ} {A : Type μ} → (E → F) → Result E A → Result F A
map_err f (ok a) = ok a
map_err f (err e) = err (f e)

-- `Result::is_err`
abbrev pub is_err {ℓ κ} : {E : Type ℓ} {A : Type κ} → Result E A → Bool
is_err (ok a) = false
is_err (err e) = true

pub Result-cases {ℓ κ} :
    {E : Type ℓ} {A : Type κ} (r : Result E A) → ((a : A) × (r ≡ ok a)) ⊎ ((e : E) × (r ≡ err e))
Result-cases (ok a) = inl (a, refl)
Result-cases (err e) = inr (e, refl)

pub err-ne-ok {ℓ κ} :
    {E : Type ℓ} {A : Type κ} (e : E) (a : A) → ◌≡◌ {A = Result E A} (err e) (ok a) → ⊥
err-ne-ok e a h = cc

-- Two checks in a row pass exactly when both do.
pub >>-eq-ok_iff {ℓ κ μ} :
    {E : Type ℓ} {P : Type κ} {Q : Type μ} (m k : Result E (Unit {0}))
    → (m ≡ ok tt) ↔ P
    → (k ≡ ok tt) ↔ Q
    → ((m >> k) ≡ ok tt) ↔ (P × Q)
>>-eq-ok_iff (ok _) k (to, from) (to', from') = (λ h. (to refl, to' h), λ pq. from' pq.1)
>>-eq-ok_iff (err e) k (to, from) (to', from') =
    (λ h. cc, λ pq. absurd (err-ne-ok e tt (from pq.0)))

pub ok-inj {ℓ κ} : {E : Type ℓ} {A : Type κ} {a b : A} → ◌≡◌ {A = Result E A} (ok a) (ok b) → a ≡ b
ok-inj h = cc
