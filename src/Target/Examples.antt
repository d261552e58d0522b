-- ===== src/Target/Examples.antt =====
-- Targets at a concrete identifier, and the spellings that are refused.
use rustmistmcp.Prelude.{◌≡◌, refl, true, false, String, ok, is_err}
use rustmistmcp.Target.{
  MistTarget, org, is_canonical_uuid, scan_uuid, split_once, parse, parse_parts, org_target,
  subject,
}
use rustmistmcp.Target.Subject.{IsCanonical, parse-subject, parse_sound}

abbrev lab_id : String
lab_id = "00000000-0000-0000-0000-00000000000a"

abbrev lab : MistTarget
lab = record { kind = org; id = lab_id }

lab-IsCanonical : IsCanonical lab
unfolding is_canonical_uuid scan_uuid
lab-IsCanonical = refl

nil_uuid_refused : is_canonical_uuid "00000000-0000-0000-0000-000000000000" ≡ false
unfolding is_canonical_uuid scan_uuid
nil_uuid_refused = refl

upper_case_refused : is_canonical_uuid "00000000-0000-0000-0000-00000000000A" ≡ false
unfolding is_canonical_uuid scan_uuid
upper_case_refused = refl

trailing_part_refused : is_err (parse "org/00000000-0000-0000-0000-00000000000a/x") ≡ true
unfolding parse parse_parts split_once
trailing_part_refused = refl

lab_parses : parse "org/00000000-0000-0000-0000-00000000000a" ≡ ok lab
unfolding parse parse_parts split_once org_target is_canonical_uuid scan_uuid
lab_parses = refl

parse-subject_example : parse (subject lab) ≡ ok lab
parse-subject_example = parse-subject lab lab-IsCanonical

parse_sound_example : IsCanonical lab × (subject lab ≡ "org/00000000-0000-0000-0000-00000000000a")
parse_sound_example = parse_sound "org/00000000-0000-0000-0000-00000000000a" lab lab_parses
