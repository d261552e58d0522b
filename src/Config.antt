-- ===== src/Config.antt =====
-- crates/rustmistmcp-core/src/config.rs: the validation of a profile.
pub mod Hosts
pub mod Accepted
mod Examples
use rustmistmcp.Prelude.{
  ℕ, ◌+◌, ◌%◌, Bool, true, false, not, ◌&&◌, ◌||◌, List, [], ◌∷◌, length, map, Option, none, some,
  String, Result, ok, err, ◌>>=◌, ◌>>◌, refuse_if, ok_or, map_err, ltb, leb, ◌==◌, if◌then◌else◌,
  str_eq, codes, contains_text, is_empty, is_prefix,
}
use rustmistmcp.Target.{is_canonical_uuid}

abbrev pub config_version : ℕ
config_version = 1

abbrev pub max_allowed_orgs : ℕ
max_allowed_orgs = 256

pub data ConfigError : Type 0 where
  credential_metadata invalid : String → ConfigError

pub record MistConfig : Type 0 where
  pub version : ℕ
  pub endpoint : String
  pub credential_file : String
  pub allowed_orgs : List String

-- What the crate url says of a URL; the host is a domain, or an address.
pub data Host : Type 0 where
  domain address : String → Host

pub record ParsedUrl : Type 0 where
  pub scheme : String
  pub username : String
  pub password : Option String
  pub query : Option String
  pub fragment : Option String
  pub path : String
  pub port : Option ℕ
  pub host : Option Host

-- What the file system says of a path, without following a link.
pub record Metadata : Type 0 where
  pub is_symlink : Bool
  pub is_file : Bool
  pub mode : ℕ

pub record System : Type 0 where
  pub parse_url : String → Option ParsedUrl
  pub symlink_metadata : String → Result String Metadata

-- `u8::to_ascii_lowercase`, on code points
abbrev pub lower_ascii : ℕ → ℕ
lower_ascii c = if leb b'A' c && leb c b'Z' then c + 32 else c

abbrev pub same_codes : List ℕ → List ℕ → Bool
same_codes [] [] = true
same_codes [] (d ∷ ds) = false
same_codes (c ∷ cs) [] = false
same_codes (c ∷ cs) (d ∷ ds) = c == d && same_codes cs ds

-- `str::eq_ignore_ascii_case`
abbrev pub eq_ignore_ascii_case : List ℕ → String → Bool
eq_ignore_ascii_case cs s = same_codes (map lower_ascii cs) (map lower_ascii (codes s))

abbrev pub add_to_first : ℕ → List (List ℕ) → List (List ℕ)
add_to_first c [] = (c ∷ []) ∷ []
add_to_first c (label ∷ labels) = (c ∷ label) ∷ labels

-- `str::split`
unfoldable pub split_at : ℕ → List ℕ → List (List ℕ)
split_at dot [] = [] ∷ []
split_at dot (c ∷ cs) =
    let labels = split_at dot cs in if c == dot then [] ∷ labels else add_to_first c labels

abbrev pub no_codes : List ℕ → Bool
no_codes [] = true
no_codes (c ∷ cs) = false

abbrev pub are_regional : List (List ℕ) → Bool
are_regional (first ∷ region ∷ third ∷ last ∷ []) =
    eq_ignore_ascii_case first "api"
    && not (no_codes region)
    && eq_ignore_ascii_case third "mist"
    && eq_ignore_ascii_case last "com"
are_regional _ = false

unfoldable pub is_mist_regional_host : String → Bool
is_mist_regional_host host =
    if eq_ignore_ascii_case (codes host) "api.mist.com"
    then true
    else are_regional (split_at b'.' (codes host))

abbrev pub is_present : {A : Type 0} → Option A → Bool
is_present none = false
is_present (some a) = true

-- Whether the URL is more, or less, than an HTTPS root.
abbrev pub is_no_root : ParsedUrl → Bool
is_no_root url =
    not (str_eq url.scheme "https")
    || not (is_empty url.username)
    || is_present url.password
    || is_present url.query
    || is_present url.fragment
    || not (str_eq url.path "/")
    || is_present url.port

abbrev pub domain_of : Option Host → Option String
domain_of (some (domain host)) = some host
domain_of (some (address a)) = none
domain_of none = none

unfoldable pub validate_mist_endpoint : System → String → Result ConfigError ParsedUrl
validate_mist_endpoint system endpoint = do
  url ← ok_or (system.parse_url endpoint) (invalid "endpoint must be a valid URL")
  refuse_if (is_no_root url) (invalid "endpoint must be an HTTPS Mist API root")
  host ← ok_or (domain_of url.host) (invalid "endpoint host must be a Mist API domain")
  refuse_if (not (is_mist_regional_host host))
      (invalid "endpoint host must be a Mist API regional domain")
  ok url

-- `Path::is_absolute` on Unix
abbrev pub is_absolute : String → Bool
is_absolute path = is_prefix (b'/' ∷ []) (codes path)

unfoldable pub validate_credential_file : System → String → Result ConfigError (Unit {0})
validate_credential_file system path = do
  refuse_if (not (is_absolute path)) (invalid "credential file must be an absolute path")
  metadata ← map_err credential_metadata (system.symlink_metadata path)
  refuse_if (metadata.is_symlink || not metadata.is_file)
      (invalid "credential file must be a regular non-symlink file")
  refuse_if (not (metadata.mode % 512 == 384))
      (invalid "credential file permissions must be exactly 0600")

-- The loop over the organizations, with those that it has seen.
unfoldable pub check_orgs : List String → List String → Result ConfigError (Unit {0})
check_orgs seen [] = ok tt
check_orgs seen (org ∷ orgs) = do
  refuse_if (not (is_canonical_uuid org))
      (invalid "allowed_orgs must contain canonical non-nil UUIDs")
  refuse_if (contains_text seen org) (invalid "allowed_orgs must not contain duplicates")
  check_orgs (org ∷ seen) orgs

unfoldable pub validate_allowed_orgs : List String → Result ConfigError (Unit {0})
validate_allowed_orgs orgs = do
  refuse_if (length orgs == 0 || ltb max_allowed_orgs (length orgs))
      (invalid "allowed_orgs must contain 1-256 organizations")
  check_orgs [] orgs

unfoldable pub validate : System → MistConfig → Result ConfigError (Unit {0})
validate system config = do
  refuse_if (not (config.version == config_version)) (invalid "unsupported config version")
  url ← validate_mist_endpoint system config.endpoint
  validate_credential_file system config.credential_file
  validate_allowed_orgs config.allowed_orgs
