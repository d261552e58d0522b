-- ===== src/Catalog/Named.antt =====
-- What the derived name of a tool keeps of the operation's.
use rustmistmcp.Prelude.{
  zero, suc, is_prefix, replace_from, length, ◌-◌, all, false, true, ℕ, ◌≡◌, refl, Bool-cases, List,
  [], ◌∷◌, ◌++◌, Option, none, some, String, ok, if◌then◌else◌, codes, ◌==◌, sym, ap, ◌∙◌, arith,
  inl, inr,
}
use rustmistmcp.Config.{lower_ascii}
use rustmistmcp.Catalog.ToolName.{
  is_alphanumeric, tool_name, respelled, split_words, join_words, to_lowercase, last_word,
  is_boundary,
}

abbrev letter : ℕ → List ℕ
letter c = if c == b'_' then [] else c ∷ []

-- The name without its underscores.
unfoldable pub letters : List ℕ → List ℕ
letters [] = []
letters (c ∷ cs) = letter c ++ letters cs

append_assoc : (xs ys zs : List ℕ) → (xs ++ ys) ++ zs ≡ xs ++ (ys ++ zs)
append_assoc [] ys zs = refl
append_assoc (x ∷ xs) ys zs = ap (λ l. x ∷ l) (append_assoc xs ys zs)

letters-append : (xs ys : List ℕ) → letters (xs ++ ys) ≡ letters xs ++ letters ys
unfolding letters
letters-append [] ys = refl
letters-append (x ∷ xs) ys =
    ap (λ l. letter x ++ l) (letters-append xs ys)
    ∙ sym (append_assoc (letter x) (letters xs) (letters ys))

map-append : (xs ys : List ℕ) → to_lowercase (xs ++ ys) ≡ to_lowercase xs ++ to_lowercase ys
map-append [] ys = refl
map-append (x ∷ xs) ys = ap (λ l. lower_ascii x ∷ l) (map-append xs ys)

abbrev all_letters : List (List ℕ) → List ℕ
all_letters [] = []
all_letters (word ∷ words) = letters word ++ all_letters words

append_nil : (xs : List ℕ) → xs ++ [] ≡ xs
append_nil [] = refl
append_nil (x ∷ xs) = ap (λ l. x ∷ l) (append_nil xs)

letters-join_words : (words : List (List ℕ)) → letters (join_words words) ≡ all_letters words
unfolding join_words letters
letters-join_words [] = refl
letters-join_words (word ∷ []) = sym (append_nil (letters word))
letters-join_words (word ∷ next ∷ words) =
    letters-append word (b'_' ∷ join_words (next ∷ words))
    ∙ ap (λ l. letters word ++ l) (letters-join_words (next ∷ words))

all_letters-last_word : (word : List ℕ) → all_letters (last_word word) ≡ letters (to_lowercase word)
unfolding letters
all_letters-last_word [] = refl
all_letters-last_word (c ∷ cs) = append_nil (letters (to_lowercase (c ∷ cs)))

letters-split_words :
    (previous : Option ℕ) (word cs : List ℕ)
    → all_letters (split_words previous word cs) ≡ letters (to_lowercase (word ++ cs))
unfolding split_words
letters-split_words previous word [] =
    all_letters-last_word word ∙ ap (λ l. letters (to_lowercase l)) (sym (append_nil word))
letters-split_words previous word (c ∷ cs) = elim (Bool-cases (is_boundary previous c cs)) [
  | inl e ↦ rw e (
      ap (λ l. letters (to_lowercase word) ++ l) (letters-split_words (some c) (c ∷ []) cs)
      ∙ sym (letters-append (to_lowercase word) (to_lowercase (c ∷ cs)))
      ∙ ap letters (sym (map-append word (c ∷ cs))))
  | inr e ↦ rw e (
      letters-split_words (some c) (word ++ (c ∷ [])) cs
      ∙ ap (λ l. letters (to_lowercase l)) (append_assoc word (c ∷ []) cs))
]

-- The list without its first entries.
unfoldable drop : ℕ → List ℕ → List ℕ
drop zero cs = cs
drop (suc n) [] = []
drop (suc n) (c ∷ cs) = drop n cs

prefix_parts : (p cs : List ℕ) → is_prefix p cs ≡ true → p ++ drop (length p) cs ≡ cs
unfolding drop
prefix_parts [] cs h = refl
prefix_parts (p ∷ ps) [] h = absurd (ground arith)
prefix_parts (p ∷ ps) (c ∷ cs) h =
    let same : p ≡ c = ground arith in
    let later : is_prefix ps cs ≡ true = ground arith in
    ap (λ l. p ∷ l) (prefix_parts ps cs later) ∙ ap (λ d. d ∷ cs) same

less_one : (n : ℕ) → suc n - 1 ≡ n
less_one n = omega arith

-- Where the new text is the old one in another case, a replacement changes nothing but the case.
lower-replace_from :
    (p : ℕ) (ps new : List ℕ)
    → to_lowercase new ≡ to_lowercase (p ∷ ps)
    → (skip : ℕ) (cs : List ℕ)
    → to_lowercase (replace_from (p ∷ ps) new skip cs) ≡ to_lowercase (drop skip cs)
unfolding replace_from drop
lower-replace_from p ps new h zero [] = refl
lower-replace_from p ps new h (suc skip) [] = refl
lower-replace_from p ps new h (suc skip) (c ∷ cs) = lower-replace_from p ps new h skip cs
lower-replace_from p ps new h zero (c ∷ cs) = elim (Bool-cases (is_prefix (p ∷ ps) (c ∷ cs))) [
  | inr e ↦ rw e (ap (λ l. lower_ascii c ∷ l) (lower-replace_from p ps new h zero cs))
  | inl e ↦ rw e (
      ap (λ n. to_lowercase (new ++ replace_from (p ∷ ps) new n cs)) (less_one (length ps))
      ∙ map-append new (replace_from (p ∷ ps) new (length ps) cs)
      ∙ ap (λ l. to_lowercase new ++ l) (lower-replace_from p ps new h (length ps) cs)
      ∙ ap (λ l. l ++ to_lowercase (drop (length ps) cs)) h
      ∙ sym (map-append (p ∷ ps) (drop (length ps) cs))
      ∙ ap to_lowercase (prefix_parts (p ∷ ps) (c ∷ cs) e))
]

-- Respelling changes only the case.
lower-respelled : (id : List ℕ) → to_lowercase (respelled id) ≡ to_lowercase id
unfolding drop
lower-respelled id =
    lower-replace_from _ _ (codes "Aoscx") refl zero _
    ∙ lower-replace_from _ _ (codes "Iot") refl zero _
    ∙ lower-replace_from _ _ (codes "Iot") refl zero _
    ∙ lower-replace_from _ _ (codes "Wifi") refl zero _
    ∙ lower-replace_from _ _ (codes "Wifi") refl zero _
    ∙ lower-replace_from _ _ (codes "Oauth2") refl zero _
    ∙ lower-replace_from _ _ (codes "Oauth2") refl zero id

lower-plain : (c : ℕ) → is_alphanumeric c ≡ true → (lower_ascii c == b'_') ≡ false
lower-plain c h = ground arith

letters-lower :
    (cs : List ℕ) → all is_alphanumeric cs ≡ true → letters (to_lowercase cs) ≡ to_lowercase cs
unfolding letters
letters-lower [] h = refl
letters-lower (c ∷ cs) h =
    let first : is_alphanumeric c ≡ true = ground arith in
    let later : all is_alphanumeric cs ≡ true = ground arith in
    rw (lower-plain c first) (ap (λ l. lower_ascii c ∷ l) (letters-lower cs later))

-- The name of a tool is `mist` and the operation's identifier in lower case, once the underscores are
-- taken out of the name: splitting it into words loses and invents no letter.
pub letters-tool_name :
    (quoted : List ℕ → String) (operation_id : String) (name : List ℕ)
    → tool_name quoted operation_id ≡ ok name
    → letters name ≡ codes "mist" ++ to_lowercase (codes operation_id)
unfolding tool_name letters
letters-tool_name quoted operation_id name h =
    let words = split_words none [] (respelled (codes operation_id)) in
    let same : codes "mist_" ++ join_words words ≡ name = ground arith in
    let plain : all is_alphanumeric (codes operation_id) ≡ true = ground arith in
    ap letters (sym same)
    ∙ letters-append (codes "mist_") (join_words words)
    ∙ ap (λ l. codes "mist" ++ l)
        (letters-join_words words
          ∙ letters-split_words none [] (respelled (codes operation_id))
          ∙ ap letters (lower-respelled (codes operation_id))
          ∙ letters-lower (codes operation_id) plain)
