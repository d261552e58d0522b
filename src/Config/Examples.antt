-- ===== src/Config/Examples.antt =====
-- A profile of one organization.
use rustmistmcp.Prelude.{◌≡◌, refl, true, false, [], ◌∷◌, none, some, ok}
use rustmistmcp.Target.{is_canonical_uuid, scan_uuid}
use rustmistmcp.Config.{
  MistConfig, System, ParsedUrl, domain, validate, validate_mist_endpoint, is_mist_regional_host,
  split_at, validate_credential_file, validate_allowed_orgs, check_orgs,
}
use rustmistmcp.Config.Accepted.{IsAccepted, validate_sound}
use rustmistmcp.Config.Hosts.{IsMistHost, is_mist_regional_host_sound}

abbrev european : ParsedUrl
european = record {
  scheme = "https";
  username = "";
  password = none;
  query = none;
  fragment = none;
  path = "/";
  port = none;
  host = some (domain "api.eu.mist.com");
}

abbrev system : System
system = record {
  parse_url = λ endpoint. some european;
  symlink_metadata = λ path. ok (record { is_symlink = false; is_file = true; mode = 33152 });
}

abbrev profile : MistConfig
profile = record {
  version = 1;
  endpoint = "https://api.eu.mist.com/";
  credential_file = "/etc/mist/token";
  allowed_orgs = "00000000-0000-0000-0000-00000000000a" ∷ [];
}

european_host : is_mist_regional_host "api.eu.mist.com" ≡ true
unfolding is_mist_regional_host split_at
european_host = refl

foreign_host : is_mist_regional_host "api.mist.com.example.org" ≡ false
unfolding is_mist_regional_host split_at
foreign_host = refl

is_mist_regional_host_sound_example : IsMistHost "api.eu.mist.com"
is_mist_regional_host_sound_example = is_mist_regional_host_sound "api.eu.mist.com" european_host

profile_accepted : validate system profile ≡ ok tt
unfolding validate validate_mist_endpoint is_mist_regional_host split_at validate_credential_file
    validate_allowed_orgs check_orgs is_canonical_uuid scan_uuid
profile_accepted = refl

validate_sound_example : IsAccepted system profile
validate_sound_example = validate_sound system profile profile_accepted
