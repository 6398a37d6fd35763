-- ===== src/Interviews.antt =====
-- packages/core/src/interviews.ts: the interview rounds of a saved lead, with their documents and the
-- notifications that remind of them. Rows are answered before they are read through the schemas again.
use careerscope.Reminders.{is_current, is_of_round, Round, Notification}
use careerscope.Leads.State.{is_lead, Lead}
use careerscope.Search.State.{Text}
use careerscope.Base.Table.{sort_by, find, update, delete, order_rows}
use careerscope.Base.{
  none, some, true, false, [], ◌∷◌, ◌+◌, ◌++◌, ℕ, Bool, List, Option, any, keep, length, map, leb,
  ltb, not, is_some, includes, ◌==◌, ◌&&◌, ◌||◌, if◌then◌else◌,
}
pub mod Update
mod Examples

pub data InterviewFormat : Type 0 where
  video phone onsite other_format : InterviewFormat

pub data RoundStatus : Type 0 where
  scheduled completed cancelled : RoundStatus

pub record Contact : Type 0 where
  pub name : Text
  pub role : Option Text
  pub email : Option Text

pub record ChecklistItem : Type 0 where
  pub id : ℕ
  pub label : Text
  pub is_completed : Bool

-- A body; the `revision` of one that creates a round is not read.
pub record RoundInput : Type 0 where
  pub title : Text
  pub starts_at : ℕ
  pub time_zone : Text
  pub format : InterviewFormat
  pub status : RoundStatus
  pub contacts : List Contact
  pub checklist : List ChecklistItem
  pub notes : Text
  pub reminder_at : Option ℕ
  pub resume_upload_ids : List ℕ
  pub revision : ℕ

pub record InterviewRound : Type 0 where
  pub id : ℕ
  pub owner_id : ℕ
  pub lead_id : ℕ
  pub input : RoundInput
  pub created_at : ℕ
  pub updated_at : ℕ

pub record RoundDocument : Type 0 where
  pub owner_id : ℕ
  pub round_id : ℕ
  pub upload_id : ℕ

pub record UploadRow : Type 0 where
  pub id : ℕ
  pub owner_id : ℕ
  pub is_queued : Bool

pub record UploadResult : Type 0 where
  pub owner_id : ℕ
  pub upload_id : ℕ
  pub is_parsed : Bool

pub record InterviewTables : Type 0 where
  pub rounds : List InterviewRound
  pub documents : List RoundDocument
  pub notifications : List Notification

-- The tables of other parts that are read here.
pub record InterviewSources : Type 0 where
  pub leads : List Lead
  pub uploads : List UploadRow
  pub results : List UploadResult

abbrev pub is_distinct : List ℕ → Bool
is_distinct [] = true
is_distinct (x ∷ xs) = not (includes xs x) && is_distinct xs

abbrev item_ids : List ChecklistItem → List ℕ
item_ids items = map (λ (i : ChecklistItem). i.id) items

abbrev is_before_start : Option ℕ → ℕ → Bool
is_before_start none start = true
is_before_start (some t) start = ltb t start

-- The checks between fields.
unfoldable pub validate_common_input : RoundInput → Bool
validate_common_input i =
    is_distinct (item_ids i.checklist)
    && is_distinct i.resume_upload_ids
    && is_before_start i.reminder_at i.starts_at

abbrev pub is_round : ℕ → ℕ → InterviewRound → Bool
is_round owner id r = (r.owner_id == owner) && (r.id == id)

abbrev pub is_document_of : ℕ → ℕ → RoundDocument → Bool
is_document_of owner id d = (d.owner_id == owner) && (d.round_id == id)

abbrev is_scheduled_status : RoundStatus → Bool
is_scheduled_status scheduled = true
is_scheduled_status _ = false

-- The round as the publisher of reminders reads it.
abbrev pub as_reminder_round : InterviewRound → Round
as_reminder_round r = record {
  id = r.id;
  owner_id = r.owner_id;
  lead_id = r.lead_id;
  is_scheduled = is_scheduled_status r.input.status;
  starts_at = r.input.starts_at;
  reminder_at = r.input.reminder_at;
}

abbrev result_rows : ℕ → ℕ → List UploadResult → ℕ
result_rows owner id [] = 0
result_rows owner id (r ∷ rs) =
    let rest = result_rows owner id rs in
    if (r.owner_id == owner) && (r.upload_id == id) && r.is_parsed then rest + 1 else rest

-- The rows of the join.
abbrev pub available_rows : ℕ → List ℕ → List UploadResult → List UploadRow → ℕ
available_rows owner ids results [] = 0
available_rows owner ids results (u ∷ us) =
    let rest = available_rows owner ids results us in
    if (u.owner_id == owner) && includes ids u.id && u.is_queued
    then result_rows owner u.id results + rest
    else rest

unfoldable pub assert_owned_documents : ℕ → List ℕ → InterviewSources → Bool
assert_owned_documents owner ids s =
    (length ids == 0) || (available_rows owner ids s.results s.uploads == length ids)

abbrev pub documents_of : ℕ → ℕ → List ℕ → List RoundDocument
documents_of owner id ids =
    map (λ (u : ℕ). record { owner_id = owner; round_id = id; upload_id = u }) ids

pub data RoundResult : Type 0 where
  no_round : RoundResult
  bad_round : RoundResult
  round_conflict : RoundResult
  documents_unavailable : RoundResult
  stored_round : InterviewRound → RoundResult
  round_threw : RoundResult

abbrev pub new_round : ℕ → ℕ → ℕ → ℕ → RoundInput → InterviewRound
new_round now id owner lead i = record {
  id = id;
  owner_id = owner;
  lead_id = lead;
  input = record i { revision = 1 };
  created_at = now;
  updated_at = now;
}

-- `parse` is the schema of the single fields.
unfoldable pub create_round :
    (RoundInput → Option RoundInput)
    → ℕ
    → ℕ
    → ℕ
    → ℕ
    → RoundInput
    → InterviewSources
    → InterviewTables
    → RoundResult × InterviewTables
create_round parse now id owner lead body s t = elim (parse body) [
  | none ↦ (bad_round, t)
  | some i ↦
      if not (validate_common_input i)
      then (bad_round, t)
      else if not (any (is_lead owner lead) s.leads)
      then (no_round, t)
      else if not (assert_owned_documents owner i.resume_upload_ids s)
      then (documents_unavailable, t)
      else if any (λ r. r.id == id) t.rounds
      then (round_threw, t)
      else (
        stored_round (new_round now id owner lead i),
        record t {
          rounds = t.rounds ++ (new_round now id owner lead i ∷ []);
          documents = t.documents ++ documents_of owner id i.resume_upload_ids;
        },
      )
]

-- `ORDER BY round.starts_at, round.id`
abbrev starts_earlier : InterviewRound → InterviewRound → Bool
starts_earlier a b =
    ltb a.input.starts_at b.input.starts_at
    || ((a.input.starts_at == b.input.starts_at) && leb a.id b.id)

-- A row with the documents that are linked to it, `ORDER BY document.upload_id`.
abbrev with_documents : List RoundDocument → InterviewRound → InterviewRound
with_documents documents r = record r {
  input = record r.input {
    resume_upload_ids =
        sort_by (λ (u : ℕ). u)
          (map (λ (d : RoundDocument). d.upload_id)
            (keep (is_document_of r.owner_id r.id) documents));
  };
}

unfoldable pub list_for_lead :
    ℕ → ℕ → InterviewSources → InterviewTables → Option (List InterviewRound)
list_for_lead owner lead s t =
    if any (is_lead owner lead) s.leads
    then some (
        map (with_documents t.documents) (
          order_rows starts_earlier
            (keep (λ (r : InterviewRound). (r.owner_id == owner) && (r.lead_id == lead)) t.rounds)))
    else none

abbrev pub next_round : ℕ → RoundInput → InterviewRound → InterviewRound
next_round now i r = record r {
  input = record i { revision = r.input.revision + 1 };
  updated_at = now;
}

abbrev pub is_round_at : ℕ → ℕ → ℕ → InterviewRound → Bool
is_round_at owner id revision r = is_round owner id r && (r.input.revision == revision)

-- An open notification of the round that no round matches any more.
abbrev pub is_unmatched : ℕ → ℕ → ℕ → List InterviewRound → Notification → Bool
is_unmatched now owner id rounds n =
    is_of_round owner id n
    && not (is_some n.retired_at)
    && not (any (λ r. is_current now n (as_reminder_round r)) rounds)

abbrev pub retire_notification : ℕ → Notification → Notification
retire_notification now n = record n { retired_at = some now }

unfoldable pub write_round : ℕ → ℕ → ℕ → RoundInput → InterviewTables → InterviewTables
write_round now owner id i t =
    let rounds = update (is_round_at owner id i.revision) (next_round now i) t.rounds in
    record t {
      rounds = rounds;
      documents =
          delete (is_document_of owner id) t.documents ++ documents_of owner id i.resume_upload_ids;
      notifications =
          update (is_unmatched now owner id rounds) (retire_notification now) t.notifications;
    }

-- The round's row, locked.
abbrev pub update_found :
    ℕ
    → ℕ
    → ℕ
    → RoundInput
    → InterviewSources
    → InterviewTables
    → Option InterviewRound
    → RoundResult × InterviewTables
update_found now owner id i s t none = (no_round, t)
update_found now owner id i s t (some r) =
    if not (r.input.revision == i.revision)
    then (round_conflict, t)
    else if not (assert_owned_documents owner i.resume_upload_ids s)
    then (documents_unavailable, t)
    else (stored_round (next_round now i r), write_round now owner id i t)

abbrev pub update_checked :
    ℕ
    → ℕ
    → ℕ
    → InterviewSources
    → InterviewTables
    → Option RoundInput
    → RoundResult × InterviewTables
update_checked now owner id s t none = (bad_round, t)
update_checked now owner id s t (some i) =
    if validate_common_input i
    then update_found now owner id i s t (find (is_round owner id) t.rounds)
    else (bad_round, t)

unfoldable pub update_round :
    (RoundInput → Option RoundInput)
    → ℕ
    → ℕ
    → ℕ
    → RoundInput
    → InterviewSources
    → InterviewTables
    → RoundResult × InterviewTables
update_round parse now owner id body s t = update_checked now owner id s t (parse body)
