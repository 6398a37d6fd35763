-- ===== src/Leads/State.antt =====
-- packages/core/src/leads.ts and schema.ts: the rows of saved leads and of their history.
use careerscope.Search.State.{Text, CollectedJob}
use careerscope.Base.{
  none, some, [], ◌∷◌, ◌++◌, ℕ, Bool, List, Option, any, ◌==◌, ◌&&◌, if◌then◌else◌,
}

pub data LeadStatus : Type 0 where
  saved : LeadStatus
  applied : LeadStatus
  interviewing : LeadStatus
  offer : LeadStatus
  rejected : LeadStatus
  withdrawn : LeadStatus
  archived : LeadStatus

abbrev pub status_code : LeadStatus → ℕ
status_code saved = 0
status_code applied = 1
status_code interviewing = 2
status_code offer = 3
status_code LeadStatus.rejected = 4
status_code withdrawn = 5
status_code archived = 6

abbrev pub is_status : LeadStatus → LeadStatus → Bool
is_status a b = status_code a == status_code b

pub data Confirmation : Type 0 where
  unknown received not_received : Confirmation

pub data Confidence : Type 0 where
  unknown low medium high : Confidence

pub data LivenessStatus : Type 0 where
  unknown live stale : LivenessStatus

-- What the candidate reports; `applied_at` is the text of the instant.
pub record ApplicationEvidence : Type 0 where
  pub method : Text
  pub applied_at : Text
  pub confirmation : Confirmation
  pub source : Text
  pub confidence : Confidence

pub record Lead : Type 0 where
  pub id : ℕ
  pub owner_id : ℕ
  pub fingerprint : ℕ
  pub data_row : CollectedJob
  pub notes : Text
  pub status : LeadStatus
  pub revision : ℕ
  pub created_at : ℕ
  pub updated_at : ℕ
  pub status_changed_at : ℕ
  pub liveness_status : LivenessStatus
  pub liveness_checked_at : Option ℕ
  pub application_evidence : Option ApplicationEvidence
  pub tags : List Text

pub record LeadHistory : Type 0 where
  pub owner_id : ℕ
  pub lead_id : ℕ
  pub revision : ℕ
  pub status : LeadStatus
  pub notes_changed : Bool
  pub previous_status : Option LeadStatus
  pub application_evidence_changed : Bool
  pub application_evidence : Option ApplicationEvidence
  pub tags_changed : Bool
  pub tags : List Text
  pub created_at : ℕ

pub record LeadTables : Type 0 where
  pub leads : List Lead
  pub history : List LeadHistory

abbrev pub is_lead : ℕ → ℕ → Lead → Bool
is_lead owner id l = (l.owner_id == owner) && (l.id == id)

abbrev pub is_about : ℕ → ℕ → LeadHistory → Bool
is_about owner id h = (h.owner_id == owner) && (h.lead_id == id)

-- The unique index of the history.
unfoldable pub insert_history : LeadHistory → LeadTables → Option LeadTables
insert_history h t =
    if any (λ x. is_about h.owner_id h.lead_id x && (x.revision == h.revision)) t.history
    then none
    else some (record t { history = t.history ++ (h ∷ []) })
