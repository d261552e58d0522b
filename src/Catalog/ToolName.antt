-- ===== src/Catalog/ToolName.antt =====
-- crates/rustmistmcp-core/src/catalog.rs: `Catalog::tool_name`, on code points.
use rustmistmcp.Prelude.{
  ℕ, ◌>>◌, Bool, false, not, ◌&&◌, ◌||◌, List, [], ◌∷◌, ◌++◌, map, Option, none, some, String,
  Result, ok, append_text, if◌then◌else◌, codes, replace_from, all, leb, ◌==◌, refuse_if,
}
use rustmistmcp.Config.{lower_ascii}
use rustmistmcp.Catalog.{CatalogError, invalid}
use rustmistmcp.Catalog.Checked.{is_alphabetic}

abbrev is_upper : ℕ → Bool
is_upper c = leb b'A' c && leb c b'Z'

abbrev is_lower : ℕ → Bool
is_lower c = leb b'a' c && leb c b'z'

abbrev is_digit : ℕ → Bool
is_digit c = leb b'0' c && leb c b'9'

abbrev pub is_alphanumeric : ℕ → Bool
is_alphanumeric c = is_alphabetic c || is_digit c

abbrev replace : String → String → List ℕ → List ℕ
replace old new cs = replace_from (codes old) (codes new) 0 cs

-- The products whose names are written as one word.
abbrev pub respelled : List ℕ → List ℕ
respelled id =
    let oauth = replace "OAUTH2" "Oauth2" (replace "OAuth2" "Oauth2" id) in
    let wifi = replace "WIFI" "Wifi" (replace "WiFi" "Wifi" oauth) in
    replace "AOSCX" "Aoscx" (replace "IOT" "Iot" (replace "IoT" "Iot" wifi))

abbrev is_lower_next : List ℕ → Bool
is_lower_next [] = false
is_lower_next (c ∷ cs) = is_lower c

-- A word starts at an upper-case letter after a lower-case one or a digit, or before a lower-case one.
abbrev pub is_boundary : Option ℕ → ℕ → List ℕ → Bool
is_boundary none c following = false
is_boundary (some p) c following =
    is_upper c && (is_lower p || is_digit p || (is_upper p && is_lower_next following))

abbrev pub to_lowercase : List ℕ → List ℕ
to_lowercase word = map lower_ascii word

abbrev pub last_word : List ℕ → List (List ℕ)
last_word [] = []
last_word (c ∷ cs) = to_lowercase (c ∷ cs) ∷ []

-- The loop over the characters; `word` is the one that is read, `previous` its last character.
unfoldable pub split_words : Option ℕ → List ℕ → List ℕ → List (List ℕ)
split_words previous word [] = last_word word
split_words previous word (c ∷ cs) =
    let boundary = is_boundary previous c cs in
    let words = split_words (some c) (if boundary then c ∷ [] else word ++ (c ∷ [])) cs in
    if boundary then to_lowercase word ∷ words else words

unfoldable pub join_words : List (List ℕ) → List ℕ
join_words [] = []
join_words (word ∷ []) = word
join_words (word ∷ next ∷ words) = word ++ (b'_' ∷ join_words (next ∷ words))

abbrev starts_alphabetic : List ℕ → Bool
starts_alphabetic [] = false
starts_alphabetic (c ∷ cs) = is_alphabetic c

abbrev is_name_code : ℕ → Bool
is_name_code c = is_lower c || is_digit c || c == b'_'

-- `quoted` is the text that `{:?}` writes.
unfoldable pub tool_name : (List ℕ → String) → String → Result CatalogError (List ℕ)
tool_name quoted operation_id = do
  refuse_if
      (not (starts_alphabetic (codes operation_id) && all is_alphanumeric (codes operation_id)))
      (invalid (append_text "unsafe operation ID: " (quoted (codes operation_id))))
  let name = codes "mist_" ++ join_words (split_words none [] (respelled (codes operation_id)))
  refuse_if (not (all is_name_code name))
      (invalid (append_text "unsafe derived tool name: " (quoted name)))
  ok name
