-- ===== src/Interviews/Examples.antt =====
-- packages/core/src/interviews.ts: a round that is moved, with a notification of its former time.
use careerscope.Interviews.Update.{update_round-stored, is_matched}
use careerscope.Interviews.{
  documents_of, is_document_of, is_round, assert_owned_documents, RoundStatus, video,
  validate_common_input, update_round, RoundResult, RoundInput, InterviewTables, InterviewSources,
  InterviewRound,
}
use careerscope.Base.Table.{find}
use careerscope.Base.{none, some, true, [], ◌∷◌, ℕ, Option, ◌≡◌, refl, keep, all}

abbrev body_of : ℕ → ℕ → Option ℕ → RoundInput
body_of revision start reminder = record {
  title = 65 ∷ [];
  starts_at = start;
  time_zone = 85 ∷ [];
  format = video;
  status = RoundStatus.scheduled;
  contacts = [];
  checklist = [];
  notes = [];
  reminder_at = reminder;
  resume_upload_ids = 31 ∷ [];
  revision = revision;
}

abbrev round : InterviewRound
round = record {
  id = 4;
  owner_id = 7;
  lead_id = 5;
  input = body_of 1 5000 (some 4000);
  created_at = 10;
  updated_at = 10;
}

abbrev tables : InterviewTables
tables = record {
  rounds = round ∷ [];
  documents = record { owner_id = 7; round_id = 4; upload_id = 30 } ∷ [];
  notifications =
      record {
        id = 1;
        owner_id = 7;
        round_id = 4;
        reminder_at = 4000;
        created_at = 4000;
        read_at = none;
        retired_at = none;
      }
      ∷ [];
}

abbrev sources : InterviewSources
sources = record {
  leads = [];
  uploads = record { id = 31; owner_id = 7; is_queued = true } ∷ [];
  results = record { owner_id = 7; upload_id = 31; is_parsed = true } ∷ [];
}

abbrev update_answer : RoundResult × InterviewTables
update_answer = update_round some 4500 7 4 (body_of 1 9000 (some 8000)) sources tables

update_round-stored_example :
    (i : RoundInput) × (some (body_of 1 9000 (some 8000)) ≡ some i)
    × (validate_common_input i ≡ true)
    × ((r : InterviewRound) × (find (is_round 7 4) tables.rounds ≡ some r)
        × (r.input.revision ≡ i.revision)
        × (assert_owned_documents 7 i.resume_upload_ids sources ≡ true)
        × (keep (is_document_of 7 4) update_answer.1.documents
            ≡ documents_of 7 4 i.resume_upload_ids)
        × (all (is_matched 4500 7 4 update_answer.1.rounds) update_answer.1.notifications ≡ true))
unfolding update_round validate_common_input assert_owned_documents find
update_round-stored_example =
    update_round-stored some 4500 7 4 (body_of 1 9000 (some 8000)) sources tables refl
