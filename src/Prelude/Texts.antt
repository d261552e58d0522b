-- ===== src/Prelude/Texts.antt =====
-- Rust's `str`: a native text, its code points, and its UTF-8 bytes.
use Prim.Native.Nat.{ℕ, zero, suc, ◌+◌, ◌-◌, ◌/◌, ◌%◌}
use Prim.Native.Char.{code}
use Prim.Native.String.{String}
use text.Mathlib.Text.{◌==◌ as str_eq}
use mathlib.Core.Bool.{Bool, true, false, ◌&&◌, ◌||◌}
use mathlib.Core.List.{List, [], ◌∷◌, ◌++◌}
use rustmistmcp.Prelude.Lists.{length}
use rustmistmcp.Prelude.Tests.{ltb, ◌==◌, if◌then◌else◌}
use rustmistmcp.Prelude.Lists.{length, any}

-- `str::chars`
abbrev pub codes : String → List ℕ
codes String.[] = []
codes (String.◌∷◌ first rest) = code first ∷ codes rest

-- The UTF-8 bytes of one code point.
abbrev pub encode_char : ℕ → List ℕ
encode_char c =
    if ltb c 0x80
    then c ∷ []
    else if ltb c 0x800
    then (0xC0 + c / 64) ∷ (0x80 + c % 64) ∷ []
    else if ltb c 0x10000
    then (0xE0 + c / 4096) ∷ (0x80 + c / 64 % 64) ∷ (0x80 + c % 64) ∷ []
    else (0xF0 + c / 262144) ∷ (0x80 + c / 4096 % 64) ∷ (0x80 + c / 64 % 64) ∷ (0x80 + c % 64) ∷ []

-- `str::as_bytes`
abbrev pub bytes : String → List ℕ
bytes String.[] = []
bytes (String.◌∷◌ c s) = encode_char (code c) ++ bytes s

-- `str::len`
abbrev pub byte_len : String → ℕ
byte_len s = length (bytes s)

-- `str::is_empty`
abbrev pub is_empty : String → Bool
is_empty String.[] = true
is_empty (String.◌∷◌ c s) = false

-- `str::contains` of one character
abbrev pub contains_char : ℕ → String → Bool
contains_char c s = any (λ d. d == c) (codes s)

-- The comparison of a list's entries with a text, `list.contains(&text)`.
abbrev pub contains_text : List String → String → Bool
contains_text xs s = any (λ x. str_eq x s) xs

-- `str::starts_with`, on code points
abbrev pub is_prefix : List ℕ → List ℕ → Bool
is_prefix [] s = true
is_prefix (c ∷ p) [] = false
is_prefix (c ∷ p) (d ∷ s) = c == d && is_prefix p s

-- `str::contains` of a text, on code points
unfoldable pub contains_codes : List ℕ → List ℕ → Bool
contains_codes p [] = is_prefix p []
contains_codes p (c ∷ s) = is_prefix p (c ∷ s) || contains_codes p s

unfoldable pub contains_str : String → String → Bool
unfolding contains_codes
contains_str needle s = contains_codes (codes needle) (codes s)

-- `str::replace` on code points, for a pattern that is not empty; `skip` counts what is left of a match.
unfoldable pub replace_from : List ℕ → List ℕ → ℕ → List ℕ → List ℕ
replace_from pattern new skip [] = []
replace_from pattern new (suc skip) (c ∷ cs) = replace_from pattern new skip cs
replace_from pattern new zero (c ∷ cs) =
    let found = is_prefix pattern (c ∷ cs) in
    let rest = replace_from pattern new (if found then length pattern - 1 else 0) cs in
    if found then new ++ rest else c ∷ rest
