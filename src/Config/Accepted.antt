-- ===== src/Config/Accepted.antt =====
-- What an accepted profile is.
use rustmistmcp.Prelude.{
  ◌≤◌, ◌≡◌, ◌↔◌, inl, inr, true, false, List, [], ◌∷◌, length, In, some, String, ok, arith,
  Option-cases, Result-cases, subst, ◌%◌, none, Option, refl, str_eq, eq_iff, is_empty,
}
use rustmistmcp.ExecuteClass.Partition.{contains_text_iff}
use rustmistmcp.Target.{is_canonical_uuid}
use rustmistmcp.Config.Hosts.{IsMistHost, is_mist_regional_host_sound}
use rustmistmcp.Config.{
  MistConfig, ParsedUrl, Metadata, System, domain_of, is_no_root, is_present, is_mist_regional_host,
  validate_mist_endpoint, is_absolute, validate_credential_file, check_orgs, validate_allowed_orgs,
  validate,
}

abbrev pub AreFresh : List String → List String → Type 0
AreFresh seen [] = Unit
AreFresh seen (org ∷ orgs) =
    (is_canonical_uuid org ≡ true) × (¬ In org seen) × AreFresh (org ∷ seen) orgs

check_orgs_iff : (seen orgs : List String) → (check_orgs seen orgs ≡ ok tt) ↔ AreFresh seen orgs
unfolding check_orgs
check_orgs_iff seen [] = ground arith
check_orgs_iff seen (org ∷ orgs) =
    ground (arith, contains_text_iff seen org, check_orgs_iff (org ∷ seen) orgs)

validate_allowed_orgs_iff :
    (orgs : List String)
    → (validate_allowed_orgs orgs ≡ ok tt)
      ↔ ((1 ≤ length orgs) × (length orgs ≤ 256) × AreFresh [] orgs)
unfolding validate_allowed_orgs
validate_allowed_orgs_iff orgs = ground (arith, check_orgs_iff [] orgs)

-- An absolute path of a regular file that only its owner reads and writes.
abbrev pub IsCredential : System → String → Type 0
IsCredential system path =
    (is_absolute path ≡ true)
    × (metadata : Metadata) × (system.symlink_metadata path ≡ ok metadata)
    × (metadata.is_symlink ≡ false)
    × (metadata.is_file ≡ true)
    × (metadata.mode % 512 ≡ 384)

validate_credential_file_sound :
    (system : System) (path : String)
    → validate_credential_file system path ≡ ok tt
    → IsCredential system path
unfolding validate_credential_file
validate_credential_file_sound system path h = elim (Result-cases (system.symlink_metadata path)) [
  | inr (failure, e) ↦ absurd (ground (arith, e, h))
  | inl (metadata, e) ↦ (
    ground (arith, e, h),
    metadata,
    e,
    ground (arith, e, h),
    ground (arith, e, h),
    ground (arith, e, h),
  )
]

-- An HTTPS root: no user, no password, no query, no fragment, the path `/`, and no port.
abbrev pub IsHttpsRoot : ParsedUrl → Type 0
IsHttpsRoot url =
    (url.scheme ≡ "https")
    × (url.username ≡ "")
    × (url.password ≡ none)
    × (url.query ≡ none)
    × (url.fragment ≡ none)
    × (url.path ≡ "/")
    × (url.port ≡ none)

empty_text : (s : String) → is_empty s ≡ true → s ≡ ""
empty_text s h = ground arith

absent : {A : Type 0} (o : Option A) → is_present o ≡ false → o ≡ none
absent none h = refl
absent (some a) h = ground arith

no_root_checks :
    (url : ParsedUrl)
    → is_no_root url ≡ false
    → (str_eq url.scheme "https" ≡ true)
      × (is_empty url.username ≡ true)
      × (is_present url.password ≡ false)
      × (is_present url.query ≡ false)
      × (is_present url.fragment ≡ false)
      × (str_eq url.path "/" ≡ true)
      × (is_present url.port ≡ false)
no_root_checks url h = ground arith

root_sound : (url : ParsedUrl) → is_no_root url ≡ false → IsHttpsRoot url
root_sound url h =
    let (scheme, user, password, query, fragment, path, port) = no_root_checks url h in
    (
      (eq_iff url.scheme "https").0 scheme,
      empty_text url.username user,
      absent url.password password,
      absent url.query query,
      absent url.fragment fragment,
      (eq_iff url.path "/").0 path,
      absent url.port port,
    )

-- An HTTPS root of a regional host of Mist.
abbrev pub IsEndpoint : System → String → ParsedUrl → Type 0
IsEndpoint system endpoint url =
    (system.parse_url endpoint ≡ some url)
    × IsHttpsRoot url
    × (host : String) × (domain_of url.host ≡ some host)
    × IsMistHost host

validate_mist_endpoint_sound :
    (system : System) (endpoint : String) (url : ParsedUrl)
    → validate_mist_endpoint system endpoint ≡ ok url
    → IsEndpoint system endpoint url
unfolding validate_mist_endpoint
validate_mist_endpoint_sound system endpoint url e =
    elim (Option-cases (system.parse_url endpoint)) [
      | inl e1 ↦ absurd (ground (arith, e, e1))
      | inr (found, e1) ↦ elim (Option-cases (domain_of found.host)) [
        | inl e2 ↦ absurd (ground (arith, e, e1, e2))
        | inr (host, e2) ↦
            let same : found ≡ url = ground (arith, e, e1, e2) in
            let root : is_no_root found ≡ false = ground (arith, e, e1, e2) in
            let regional : is_mist_regional_host host ≡ true = ground (arith, e, e1, e2) in
            subst (IsEndpoint system endpoint) same
              (e1, root_sound found root, host, e2, is_mist_regional_host_sound host regional)
      ]
    ]

-- Every check of a profile holds.
pub record IsAccepted (system : System) (config : MistConfig) : Type 0 where
  pub version : config.version ≡ 1
  pub endpoint : (url : ParsedUrl) × IsEndpoint system config.endpoint url
  pub credential : IsCredential system config.credential_file
  pub bounds : (1 ≤ length config.allowed_orgs) × (length config.allowed_orgs ≤ 256)
  pub orgs : AreFresh [] config.allowed_orgs

-- A profile that is accepted is of version 1, its endpoint is an HTTPS root of a regional host of Mist,
-- its credential is an absolute path of a regular file with mode 0600 that is no link, and it has 1 to
-- 256 organizations, all canonical and no two the same.
pub validate_sound :
    (system : System) (config : MistConfig)
    → validate system config ≡ ok tt
    → IsAccepted system config
unfolding validate
validate_sound system config h =
    elim (Result-cases (validate_mist_endpoint system config.endpoint)) [
      | inr (failure, e) ↦ absurd (ground (arith, e, h))
      | inl (url, e) ↦
          let credential : validate_credential_file system config.credential_file ≡ ok tt =
            ground (arith, e, h) in
          let orgs : validate_allowed_orgs config.allowed_orgs ≡ ok tt = ground (arith, e, h) in
          let (low, high, fresh) = (validate_allowed_orgs_iff config.allowed_orgs).0 orgs in
          record {
            version = ground (arith, e, h);
            endpoint = (url, validate_mist_endpoint_sound system config.endpoint url e);
            credential = validate_credential_file_sound system config.credential_file credential;
            bounds = (low, high);
            orgs = fresh;
          }
    ]
