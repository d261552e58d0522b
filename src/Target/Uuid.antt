-- ===== src/Target/Uuid.antt =====
-- What `is_canonical_uuid` accepts, byte by byte.
use rustmistmcp.Prelude.{
  ℕ, suc, ◌≡◌, ◌≢◌, ◌≤◌, refl, ◌↔◌, ◌⊎◌, inl, Bool, true, false, List, [], ◌∷◌, String, code, bytes,
  length, arith, encode_char, contains_char, ◌++◌, any, ◌||◌, ◌==◌, ◌<◌,
}
use rustmistmcp.Target.{scan_uuid, is_canonical_uuid}

-- 0-9 or a-f
abbrev pub IsLowerHex : ℕ → Type 0
IsLowerHex b = ((48 ≤ b) × (b ≤ 57)) ⊎ ((97 ≤ b) × (b ≤ 102))

abbrev pub IsSeparator : ℕ → Type 0
IsSeparator i = (i ≡ 8) ⊎ (i ≡ 13) ⊎ (i ≡ 18) ⊎ (i ≡ 23)

-- A dash at each separator, a lowercase digit at every other index.
abbrev pub Fits : ℕ → ℕ → Type 0
Fits i b = (IsSeparator i → b ≡ 45) × (¬ IsSeparator i → IsLowerHex b)

abbrev pub EachFits : ℕ → List ℕ → Type 0
EachFits i [] = Unit
EachFits i (b ∷ bs) = Fits i b × EachFits (suc i) bs

-- Some digit is not 0.
abbrev pub HasNonzero : ℕ → List ℕ → Type 0
HasNonzero i [] = ⊥
HasNonzero i (b ∷ bs) = ((¬ IsSeparator i) × (b ≢ 48)) ⊎ HasNonzero (suc i) bs

scan_sound :
    (i : ℕ) (seen : Bool) (bs : List ℕ)
    → scan_uuid i seen bs ≡ true
    → EachFits i bs × ((seen ≡ true) ⊎ HasNonzero i bs)
unfolding scan_uuid
scan_sound i seen [] h = (tt, inl h)
scan_sound i seen (x ∷ bs) h =
    ground (arith, scan_sound (suc i) seen bs, scan_sound (suc i) true bs)

scan_complete :
    (i : ℕ) (seen : Bool) (bs : List ℕ)
    → EachFits i bs
    → (seen ≡ true) ⊎ HasNonzero i bs
    → scan_uuid i seen bs ≡ true
unfolding scan_uuid
scan_complete i seen [] f n = ground arith
scan_complete i seen (x ∷ bs) f n =
    ground (arith, scan_complete (suc i) seen bs, scan_complete (suc i) true bs)

-- A text is a canonical identifier exactly when it is 36 bytes long, holds a dash at the bytes 8,
-- 13, 18 and 23 and a digit or a letter from a to f at every other, and has a digit that is not 0.
pub is_canonical_uuid_iff :
    (s : String)
    → (is_canonical_uuid s ≡ true)
      ↔ ((length (bytes s) ≡ 36) × EachFits 0 (bytes s) × HasNonzero 0 (bytes s))
unfolding is_canonical_uuid
is_canonical_uuid_iff s =
    ground (arith, scan_sound 0 false (bytes s), scan_complete 0 false (bytes s))

any-append : (p : ℕ → Bool) (xs ys : List ℕ) → any p (xs ++ ys) ≡ (any p xs || any p ys)
any-append p [] ys = refl
any-append p (x ∷ xs) ys = ground (arith, any-append p xs ys)

any-bytes :
    (c : ℕ) (s : String) → c < 128 → contains_char c s ≡ true → any (λ d. d == c) (bytes s) ≡ true
any-bytes c String.[] h e = cc
any-bytes c (String.◌∷◌ x s) h e =
    ground (arith, any-append (λ d. d == c) (encode_char (code x)) (bytes s), any-bytes c s h)

EachFits-any :
    (c i : ℕ) (bs : List ℕ)
    → (c ≢ 45)
    → ¬ IsLowerHex c
    → EachFits i bs
    → any (λ d. d == c) bs ≡ false
EachFits-any c i [] d h f = refl
EachFits-any c i (b ∷ bs) d h f = ground (arith, EachFits-any c (suc i) bs d h)

-- A canonical identifier holds no slash.
pub canonical-no_slash : (s : String) → is_canonical_uuid s ≡ true → contains_char b'/' s ≡ false
canonical-no_slash s h = ground (
  arith,
  (is_canonical_uuid_iff s).0 h,
  any-bytes b'/' s,
  EachFits-any b'/' 0 (bytes s) (omega arith) (omega arith),
)
