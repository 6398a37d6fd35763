-- ===== src/Leads/Schema.antt =====
-- packages/core/src/leads.ts: the schemas of an update, `updateLeadSchema` and `leadTagsSchema`.
use careerscope.Leads.State.{LeadStatus, ApplicationEvidence}
use careerscope.Search.State.{Text}
use careerscope.Base.{
  same_text, none, some, true, false, [], ◌∷◌, ℕ, Bool, List, Option, any, all, length, leb, not,
  ◌==◌, ◌&&◌, if◌then◌else◌, ◌>>=◌, ◌>>◌, guard,
}

-- What the schemas call on texts: `trim`, `toLowerCase`, the class of control characters, the number of
-- code points, and the instant that a text with an offset denotes, in milliseconds.
pub record TextCalls : Type 0 where
  pub trim : Text → Text
  pub lower : Text → Text
  pub has_control : Text → Bool
  pub code_points : Text → ℕ
  pub instant : Text → Option ℕ

-- A field that is missing, null or given.
pub data EvidenceChange : Type 0 where
  keep_evidence : EvidenceChange
  remove_evidence : EvidenceChange
  give_evidence : ApplicationEvidence → EvidenceChange

pub record LeadChanges : Type 0 where
  pub revision : ℕ
  pub notes : Text
  pub status : LeadStatus
  pub application_evidence : EvidenceChange
  pub tags : Option (List Text)

-- `,`
abbrev comma : ℕ
comma = 44

abbrev is_tag : TextCalls → Text → Bool
is_tag c t =
    leb 1 (length t)
    && leb (c.code_points t) 32
    && not (any (λ x. x == comma) t)
    && not (c.has_control t)

-- No tag stands twice, whatever the case of its letters.
abbrev pub distinct_tags : TextCalls → List Text → Bool
distinct_tags c [] = true
distinct_tags c (t ∷ ts) =
    not (any (λ x. same_text (c.lower x) (c.lower t)) ts) && distinct_tags c ts

abbrev trimmed : TextCalls → List Text → List Text
trimmed c [] = []
trimmed c (t ∷ ts) = c.trim t ∷ trimmed c ts

unfoldable pub parse_tags : TextCalls → List Text → Option (List Text)
parse_tags c tags =
    let ts = trimmed c tags in
    if all (is_tag c) ts && leb (length ts) 12 && distinct_tags c ts then some ts else none

abbrev in_past : ℕ → Option ℕ → Bool
in_past now none = false
in_past now (some t) = leb t now

unfoldable pub parse_evidence : TextCalls → ℕ → ApplicationEvidence → Option ApplicationEvidence
parse_evidence c now e =
    let m = c.trim e.method in
    let s = c.trim e.source in
    if leb 1 (length m)
      && leb (length m) 120
      && leb (length s) 160
      && in_past now (c.instant e.applied_at)
    then some (record e { method = m; source = s })
    else none

abbrev pub parse_evidence_change : TextCalls → ℕ → EvidenceChange → Option EvidenceChange
parse_evidence_change c now (give_evidence e) =
    parse_evidence c now e >>= λ x. some (give_evidence x)
parse_evidence_change c now change = some change

abbrev pub parse_optional_tags : TextCalls → Option (List Text) → Option (Option (List Text))
parse_optional_tags c none = some none
parse_optional_tags c (some ts) = parse_tags c ts >>= λ x. some (some x)

-- The largest revision that can be followed by another one in the column's 32 bits.
abbrev pub max_revision : ℕ
max_revision = 2147483646

unfoldable pub parse_changes : TextCalls → ℕ → LeadChanges → Option LeadChanges
parse_changes c now changes = do
  guard (
      leb 1 changes.revision
      && leb changes.revision max_revision
      && leb (length changes.notes) 10000)
  e ← parse_evidence_change c now changes.application_evidence
  ts ← parse_optional_tags c changes.tags
  some (record changes { application_evidence = e; tags = ts })
