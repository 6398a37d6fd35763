-- ===== src/Leads/Replay.antt =====
-- packages/core/src/leads.ts: a lead as its history tells it, beside the lead's row.
use careerscope.Leads.Update.{same_tags, same_application_evidence}
use careerscope.Leads.State.{
  is_status, is_lead, is_about, ApplicationEvidence, LeadTables, LeadStatus, LeadHistory, Lead,
}
use careerscope.Search.State.{Text}
use careerscope.Base.Table.{find}
use careerscope.Base.{
  none, some, true, false, [], ◌∷◌, ◌+◌, ℕ, Bool, List, Option, not, is_some, keep, ◌==◌, ◌&&◌,
  if◌then◌else◌, ◌≡◌,
}

-- What the history says of a lead.
pub record LeadView : Type 0 where
  pub revision : ℕ
  pub status : LeadStatus
  pub evidence : Option ApplicationEvidence
  pub tags : List Text

pub data Replay : Type 0 where
  not_saved : Replay
  saved_as : LeadView → Replay
  broken : Replay

abbrev pub view_of : Lead → LeadView
view_of l = record {
  revision = l.revision;
  status = l.status;
  evidence = l.application_evidence;
  tags = l.tags;
}

abbrev pub entry_view : LeadHistory → LeadView
entry_view h = record {
  revision = h.revision;
  status = h.status;
  evidence = h.application_evidence;
  tags = h.tags;
}

abbrev pub is_from : Option LeadStatus → LeadStatus → Bool
is_from none s = false
is_from (some p) s = is_status p s

abbrev pub same_flag : Bool → Bool → Bool
same_flag true b = b
same_flag false b = not b

-- An entry follows when it has the next revision, starts from the status that was reached, and tells
-- truly whether the evidence and the tags changed.
abbrev pub follows : LeadView → LeadHistory → Bool
follows v h =
    (h.revision == (v.revision + 1))
    && is_from h.previous_status v.status
    && same_flag h.application_evidence_changed
        (not (same_application_evidence v.evidence h.application_evidence))
    && same_flag h.tags_changed (not (same_tags v.tags h.tags))

unfoldable pub replay_entry : Replay → LeadHistory → Replay
replay_entry not_saved h =
    if (h.revision == 1) && not (is_some h.previous_status) then saved_as (entry_view h) else broken
replay_entry (saved_as v) h = if follows v h then saved_as (entry_view h) else broken
replay_entry broken h = broken

unfoldable pub replay : List LeadHistory → Replay → Replay
replay [] r = r
replay (h ∷ hs) r = replay hs (replay_entry r h)

abbrev pub expected : Option Lead → Replay
expected none = not_saved
expected (some l) = saved_as (view_of l)

-- The entries of a lead, in the order in which they were written, lead to the lead's row; a lead that is not
-- there has none.
unfoldable pub IsReplayed : ℕ → ℕ → LeadTables → Type 0
IsReplayed owner id t =
    replay (keep (is_about owner id) t.history) not_saved
    ≡ expected (find (is_lead owner id) t.leads)
