-- ===== src/Target.antt =====
-- crates/rustmistmcp-core/src/target.rs: organization and site targets, `org/<uuid>` and
-- `site/<uuid>`.
pub mod Uuid
pub mod Subject
mod Examples
use mathlib.Core.Option
use rustmistmcp.Prelude.{
  ℕ, suc, ◌+◌, Bool, true, false, not, ◌&&◌, ◌||◌, List, [], ◌∷◌, Option, none, some, String, code,
  Result, ok, err, leb, ◌==◌, if◌then◌else◌, bytes, length, contains_char, str_eq, append_text,
}

-- The message of a malformed subject.
pub data MistTargetError : Type 0 where
  target_error : String → MistTargetError

pub data MistTargetKind : Type 0 where
  org site : MistTargetKind

pub record MistTarget : Type 0 where
  pub kind : MistTargetKind
  pub id : String

-- `matches!(index, 8 | 13 | 18 | 23)`
abbrev pub is_separator : ℕ → Bool
is_separator i = i == 8 || i == 13 || i == 18 || i == 23

-- `byte.is_ascii_digit() || (b'a'..=b'f').contains(&byte)`
abbrev pub is_lower_hex : ℕ → Bool
is_lower_hex b = (leb b'0' b && leb b b'9') || (leb b'a' b && leb b b'f')

-- The loop of `is_canonical_uuid`, from an index on.
unfoldable pub scan_uuid : ℕ → Bool → List ℕ → Bool
scan_uuid index contains_nonzero [] = contains_nonzero
scan_uuid index contains_nonzero (byte ∷ rest) =
    let same = scan_uuid (suc index) contains_nonzero rest in
    let nonzero = scan_uuid (suc index) true rest in
    if is_separator index
    then if byte == b'-' then same else false
    else if not (is_lower_hex byte)
    then false
    else if not (byte == b'0')
    then nonzero
    else same

unfoldable pub is_canonical_uuid : String → Bool
unfolding scan_uuid
is_canonical_uuid value =
    if not (length (bytes value) == 36) then false else scan_uuid 0 false (bytes value)

unfoldable pub org_target : String → Result MistTargetError MistTarget
org_target id =
    if not (is_canonical_uuid id)
    then err (target_error "organization ID must be a canonical non-nil UUID")
    else ok (record { kind = org; id = id })

unfoldable pub site_target : String → Result MistTargetError MistTarget
site_target id =
    if not (is_canonical_uuid id)
    then err (target_error "site ID must be a canonical non-nil UUID")
    else ok (record { kind = site; id = id })

-- `str::split_once` at one character
unfoldable pub split_once : ℕ → String → Option (String × String)
split_once c String.[] = none
split_once c (String.◌∷◌ x s) =
    let later = split_once c s in
    if code x == c
    then some ("", s)
    else Option.map (λ (before, after). (String.◌∷◌ x before, after)) later

-- The `match` on the kind and the rest of the subject.
unfoldable pub parse_parts : Option (String × String) → Result MistTargetError MistTarget
parse_parts none = err (target_error "subject must have exactly one kind separator")
parse_parts (some (kind, id)) =
    if contains_char b'/' id
    then err (target_error "subject must have exactly one kind separator")
    else if str_eq kind "org"
    then org_target id
    else if str_eq kind "site"
    then site_target id
    else err (target_error "subject kind must be org or site")

unfoldable pub parse : String → Result MistTargetError MistTarget
parse subject = parse_parts (split_once b'/' subject)

abbrev pub kind_prefix : MistTargetKind → String
kind_prefix org = "org/"
kind_prefix site = "site/"

-- `fmt::Display` and `MistTarget::subject`
unfoldable pub subject : MistTarget → String
subject t = append_text (kind_prefix t.kind) t.id

-- `Serialize` and `Deserialize`: the subject is parsed before it is written, and when it is read.
unfoldable pub serialize : MistTarget → Result MistTargetError String
serialize t = elim (parse (subject t)) [ ok _ ↦ ok (subject t) | err e ↦ err e ]

unfoldable pub deserialize : String → Result MistTargetError MistTarget
deserialize s = parse s
