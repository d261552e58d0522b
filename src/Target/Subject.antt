-- ===== src/Target/Subject.antt =====
-- The spelling of targets: what `parse` accepts, and the way back.
use Prim.Native.String.{String}
use text.Mathlib.TextEquality.{Char-path}
use text.Mathlib.TextLemmas.{nil-append, cons-append, append_assoc}
use mathlib.Core.Option
use rustmistmcp.Prelude.{
  ◌≡◌, refl, ap, ◌∙◌, ◌⊎◌, true, none, some, Char, code, ok, arith, append_text, eq_iff,
  Option-cases, Bool-cases, inl, inr, ◌==◌, ==_iff,
}
use rustmistmcp.Target.{
  MistTarget, MistTargetKind, org, site, kind_prefix, is_canonical_uuid, org_target, site_target,
  split_once, parse_parts, parse, subject,
}
use rustmistmcp.Target.Uuid.{canonical-no_slash}

-- The identifier is a canonical one: what the constructors of a target grant.
abbrev pub IsCanonical : MistTarget → Type 0
IsCanonical t = is_canonical_uuid t.id ≡ true

split_once-org : (id : String) → split_once b'/' (append_text "org/" id) ≡ some ("org", id)
unfolding split_once
split_once-org id = rw (cons-append, cons-append, cons-append, cons-append, nil-append)

split_once-site : (id : String) → split_once b'/' (append_text "site/" id) ≡ some ("site", id)
unfolding split_once
split_once-site id =
    rw (cons-append, cons-append, cons-append, cons-append, cons-append, nil-append)

parts-org :
    (id : String)
    → is_canonical_uuid id ≡ true
    → parse_parts (some ("org", id)) ≡ ok (record { kind = org; id = id })
unfolding parse_parts org_target
parts-org id h = ground (arith, canonical-no_slash id h)

parts-site :
    (id : String)
    → is_canonical_uuid id ≡ true
    → parse_parts (some ("site", id)) ≡ ok (record { kind = site; id = id })
unfolding parse_parts site_target
parts-site id h = ground (arith, canonical-no_slash id h)

parse-subject_kind :
    (k : MistTargetKind) (id : String)
    → is_canonical_uuid id ≡ true
    → parse (append_text (kind_prefix k) id) ≡ ok (record { kind = k; id = id })
unfolding parse
parse-subject_kind org id h = rw (split_once-org id) (parts-org id h)
parse-subject_kind site id h = rw (split_once-site id) (parts-site id h)

-- A canonical target is parsed back from the subject it prints.
pub parse-subject : (t : MistTarget) → IsCanonical t → parse (subject t) ≡ ok t
unfolding subject
parse-subject t h = parse-subject_kind t.kind t.id h

split_once_sound :
    (c : Char) (s before after : String)
    → split_once (code c) s ≡ some (before, after)
    → s ≡ append_text before (String.◌∷◌ c after)
unfolding split_once
split_once_sound c String.[] before after e = cc
split_once_sound c (String.◌∷◌ x s) before after e = elim (Bool-cases (code x == code c)) [
  | inl same ↦ ground (arith, Char-path x c ((==_iff _ _).0 same), nil-append (String.◌∷◌ c after))
  | inr other ↦
      let (found, matched, same) = (Option.map-eq-some_iff _ _).0 (rw other at e) in
      ground (
        arith,
        same,
        split_once_sound c s found.0 found.1 matched,
        cons-append x found.0 (String.◌∷◌ c after),
      )
]

abbrev slash : Char
slash = "/"

slash-append :
    (s t : String) → append_text (append_text s "/") t ≡ append_text s (String.◌∷◌ slash t)
slash-append s t =
    append_assoc s "/" t
    ∙ ap (append_text s) (cons-append slash "" t ∙ ap (String.◌∷◌ slash) (nil-append t))

abbrev Spells : String → MistTargetKind → Type 0
Spells word k = ((word ≡ "org") × (k ≡ org)) ⊎ ((word ≡ "site") × (k ≡ site))

spelled-slash :
    (word : String) (k : MistTargetKind) → Spells word k → append_text word "/" ≡ kind_prefix k
spelled-slash word k (inl (w, e)) = rw (w, e) refl
spelled-slash word k (inr (w, e)) = rw (w, e) refl

parse_parts_sound :
    (kind id : String) (t : MistTarget)
    → parse_parts (some (kind, id)) ≡ ok t
    → (is_canonical_uuid id ≡ true) × (t.id ≡ id) × Spells kind t.kind
unfolding parse_parts org_target site_target
parse_parts_sound kind id t e = ground (arith, eq_iff kind "org", eq_iff kind "site")

parse_none-ne-ok : (t : MistTarget) → ¬ (parse_parts none ≡ ok t)
unfolding parse_parts
parse_none-ne-ok t e = cc

-- Whatever is parsed is canonical, and its subject is the text it came from: one target has one
-- spelling.
pub parse_sound : (s : String) (t : MistTarget) → parse s ≡ ok t → IsCanonical t × (subject t ≡ s)
unfolding parse subject
parse_sound s t e = elim (Option-cases (split_once b'/' s)) [
  | inl missing ↦ absurd (parse_none-ne-ok t (rw (missing, parse) at e))
  | inr ((kind, id), found) ↦
      let (canonical, same_id, same_kind) = parse_parts_sound kind id t (rw (found, parse) at e) in
      (
        rw same_id canonical,
        cc (
          same_id,
          spelled-slash kind t.kind same_kind,
          split_once_sound slash s kind id found,
          slash-append kind id,
        ),
      )
]

abbrev kind_word : MistTargetKind → String
kind_word org = "org"
kind_word site = "site"

split_once-subject_kind :
    (k : MistTargetKind) (id : String)
    → split_once b'/' (append_text (kind_prefix k) id) ≡ some (kind_word k, id)
split_once-subject_kind org id = split_once-org id
split_once-subject_kind site id = split_once-site id

kind_word-inj : (a b : MistTargetKind) → kind_word a ≡ kind_word b → a ≡ b
kind_word-inj org org e = refl
kind_word-inj org site e = ground (arith, eq_iff "org" "site")
kind_word-inj site org e = ground (arith, eq_iff "site" "org")
kind_word-inj site site e = refl

-- Two targets have one subject only if they are the same.
pub subject-inj : (a b : MistTarget) → subject a ≡ subject b → a ≡ b
unfolding subject
subject-inj a b e = ground (
  arith,
  split_once-subject_kind a.kind a.id,
  split_once-subject_kind b.kind b.id,
  kind_word-inj a.kind b.kind,
  ap (split_once b'/') e,
)
