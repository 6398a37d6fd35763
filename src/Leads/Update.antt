-- ===== src/Leads/Update.antt =====
-- packages/core/src/leads.ts: `update`, an edit of a lead that is guarded by its revision, and the checks
-- of a job's link.
use careerscope.Leads.Schema.{give_evidence, parse_changes, TextCalls, LeadChanges, EvidenceChange}
use careerscope.Leads.State.{
  archived, saved, is_status, is_lead, insert_history, LeadHistory, LivenessStatus, LeadTables,
  LeadStatus, Lead, Confirmation, Confidence, ApplicationEvidence,
}
use careerscope.Search.State.{Text}
use careerscope.Leads.Schema.{keep_evidence, remove_evidence, give_evidence}
use careerscope.Leads.State.{
  applied, interviewing, offer, withdrawn, received, not_received, low, medium, high,
}
use careerscope.Base.Table.{find, update}
use careerscope.Base.{
  same_text, none, some, true, false, [], ◌∷◌, ◌+◌, ℕ, Bool, List, Option, not, get_or, is_some,
  ◌==◌, ◌&&◌, ◌||◌, if◌then◌else◌,
}

pub data LeadIssue : Type 0 where
  bad_changes : LeadIssue
  tags_locked : LeadIssue
  evidence_removed : LeadIssue
  evidence_without_application : LeadIssue
  evidence_required : LeadIssue

pub data LeadResult : Type 0 where
  no_lead : LeadResult
  revision_conflict : LeadResult
  issue : LeadIssue → LeadResult
  lead_answer : Lead → LeadResult
  update_threw : LeadResult

abbrev same_confirmation : Confirmation → Confirmation → Bool
same_confirmation Confirmation.unknown Confirmation.unknown = true
same_confirmation received received = true
same_confirmation not_received not_received = true
same_confirmation _ _ = false

abbrev same_confidence : Confidence → Confidence → Bool
same_confidence Confidence.unknown Confidence.unknown = true
same_confidence low low = true
same_confidence medium medium = true
same_confidence high high = true
same_confidence _ _ = false

unfoldable pub same_application_evidence :
    Option ApplicationEvidence → Option ApplicationEvidence → Bool
same_application_evidence none none = true
same_application_evidence (some a) (some b) =
    same_text a.method b.method
    && same_text a.applied_at b.applied_at
    && same_confirmation a.confirmation b.confirmation
    && same_text a.source b.source
    && same_confidence a.confidence b.confidence
same_application_evidence _ _ = false

-- The same length and the same tag at every place.
abbrev pub same_tags : List Text → List Text → Bool
same_tags [] [] = true
same_tags (x ∷ xs) (y ∷ ys) = same_text x y && same_tags xs ys
same_tags _ _ = false

abbrev pub is_shelved : LeadStatus → Bool
is_shelved s = is_status s saved || is_status s archived

abbrev pub is_progressed : LeadStatus → Bool
is_progressed s =
    is_status s applied
    || is_status s interviewing
    || is_status s offer
    || is_status s LeadStatus.rejected
    || is_status s withdrawn

abbrev pub next_evidence : Option ApplicationEvidence → EvidenceChange → Option ApplicationEvidence
next_evidence current keep_evidence = current
next_evidence current remove_evidence = none
next_evidence current (give_evidence e) = some e

abbrev pub is_removal : EvidenceChange → Bool
is_removal remove_evidence = true
is_removal _ = false

abbrev pub evidence_of : Lead → LeadChanges → Option ApplicationEvidence
evidence_of l c = next_evidence l.application_evidence c.application_evidence

abbrev pub tags_of : Lead → LeadChanges → List Text
tags_of l c = get_or c.tags l.tags

-- The first rule that the edit breaks.
unfoldable pub broken_rule : Lead → LeadChanges → Option LeadIssue
broken_rule l c =
    if is_some c.tags && (not (is_shelved l.status) || not (is_shelved c.status))
    then some tags_locked
    else if is_some l.application_evidence && is_removal c.application_evidence
    then some evidence_removed
    else if not (is_some l.application_evidence)
        && is_some (evidence_of l c)
        && not (is_progressed c.status)
    then some evidence_without_application
    else if is_progressed c.status
        && not (is_some l.application_evidence)
        && not (is_some (evidence_of l c))
        && not (is_status l.status c.status)
    then some evidence_required
    else none

unfoldable pub is_unchanged : Lead → LeadChanges → Bool
is_unchanged l c =
    same_text l.notes c.notes
    && is_status l.status c.status
    && same_application_evidence l.application_evidence (evidence_of l c)
    && same_tags l.tags (tags_of l c)

abbrev pub edited : ℕ → LeadChanges → Option ApplicationEvidence → List Text → Lead → Lead
edited now c evidence tags l = record l {
  notes = c.notes;
  status = c.status;
  application_evidence = evidence;
  tags = tags;
  revision = l.revision + 1;
  updated_at = now;
  status_changed_at = if is_status l.status c.status then l.status_changed_at else now;
}

abbrev pub edit_history : ℕ → Lead → LeadChanges → LeadHistory
edit_history now l c = record {
  owner_id = l.owner_id;
  lead_id = l.id;
  revision = l.revision + 1;
  status = c.status;
  notes_changed = not (same_text l.notes c.notes);
  previous_status = some l.status;
  application_evidence_changed =
      not (same_application_evidence l.application_evidence (evidence_of l c));
  application_evidence = evidence_of l c;
  tags_changed = not (same_tags l.tags (tags_of l c));
  tags = tags_of l c;
  created_at = now;
}

abbrev pub edit_answer : Lead → LeadTables → Option LeadTables → LeadResult × LeadTables
edit_answer l t none = (update_threw, t)
edit_answer l t (some u) = (lead_answer l, u)

-- The row and its history row, in one transaction.
unfoldable pub write_edit : ℕ → Lead → LeadChanges → LeadTables → LeadResult × LeadTables
write_edit now l c t = edit_answer (edited now c (evidence_of l c) (tags_of l c) l) t (
    insert_history (edit_history now l c) (record t {
      leads =
          update (is_lead l.owner_id l.id) (edited now c (evidence_of l c) (tags_of l c)) t.leads;
    }))

abbrev pub update_allowed :
    ℕ → Lead → LeadChanges → LeadTables → Option LeadIssue → LeadResult × LeadTables
update_allowed now l c t (some i) = (issue i, t)
update_allowed now l c t none =
    if is_unchanged l c then (lead_answer l, t) else write_edit now l c t

-- The lead's row, locked.
abbrev pub update_row : ℕ → LeadChanges → LeadTables → Option Lead → LeadResult × LeadTables
update_row now c t none = (no_lead, t)
update_row now c t (some l) =
    if l.revision == c.revision
    then update_allowed now l c t (broken_rule l c)
    else (revision_conflict, t)

abbrev pub update_parsed : ℕ → ℕ → ℕ → LeadTables → Option LeadChanges → LeadResult × LeadTables
update_parsed now owner id t none = (issue bad_changes, t)
update_parsed now owner id t (some c) = update_row now c t (find (is_lead owner id) t.leads)

-- `ms` is the time in milliseconds that the schema reads.
unfoldable pub update_lead :
    TextCalls → ℕ → ℕ → ℕ → ℕ → LeadChanges → LeadTables → LeadResult × LeadTables
update_lead calls ms now owner id changes t =
    update_parsed now owner id t (parse_changes calls ms changes)

abbrev pub checked : ℕ → LivenessStatus → Lead → Lead
checked now status l = record l { liveness_status = status; liveness_checked_at = some now }

unfoldable pub record_liveness_check : ℕ → ℕ → ℕ → LivenessStatus → LeadTables → LeadTables
record_liveness_check now owner id status t = record t {
  leads = update (is_lead owner id) (checked now status) t.leads;
}
