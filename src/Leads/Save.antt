-- ===== src/Leads/Save.antt =====
-- packages/core/src/leads.ts: `save`, which makes a lead of a job that a search found.
use careerscope.Leads.State.{LivenessStatus, saved, insert_history, LeadTables, LeadHistory, Lead}
use careerscope.Search.State.{CollectedJob, SearchRun, RunStatus}
use careerscope.Base.Table.{find}
use careerscope.Base.{
  none, some, true, false, [], ◌∷◌, ◌++◌, ℕ, Bool, List, Option, any, ◌==◌, ◌&&◌, if◌then◌else◌,
}

-- The columns of `search_jobs` that are read here.
pub record FoundJob : Type 0 where
  pub id : ℕ
  pub run_id : ℕ
  pub owner_id : ℕ
  pub data_row : CollectedJob

abbrev is_answered : RunStatus → Bool
is_answered RunStatus.completed = true
is_answered RunStatus.partial = true
is_answered _ = false

-- The job is the user's, and its run has results.
abbrev pub is_source_job : ℕ → ℕ → List SearchRun → FoundJob → Bool
is_source_job owner job_id runs j =
    (j.owner_id == owner)
    && (j.id == job_id)
    && any
        (λ (r : SearchRun).
          (r.id == j.run_id) && (r.owner_id == j.owner_id) && is_answered r.status)
        runs

abbrev pub is_fingerprint : ℕ → ℕ → Lead → Bool
is_fingerprint owner fingerprint l = (l.owner_id == owner) && (l.fingerprint == fingerprint)

abbrev pub new_lead : ℕ → ℕ → ℕ → CollectedJob → Lead
new_lead now id owner job = record {
  id = id;
  owner_id = owner;
  fingerprint = job.fingerprint;
  data_row = job;
  notes = [];
  status = saved;
  revision = 1;
  created_at = now;
  updated_at = now;
  status_changed_at = now;
  liveness_status = LivenessStatus.unknown;
  liveness_checked_at = none;
  application_evidence = none;
  tags = [];
}

abbrev pub first_history : ℕ → ℕ → ℕ → LeadHistory
first_history now owner id = record {
  owner_id = owner;
  lead_id = id;
  revision = 1;
  status = saved;
  notes_changed = false;
  previous_status = none;
  application_evidence_changed = false;
  application_evidence = none;
  tags_changed = false;
  tags = [];
  created_at = now;
}

pub data SaveResult : Type 0 where
  no_job : SaveResult
  kept_lead : Lead → SaveResult
  save_threw : SaveResult

abbrev pub saved_with : Lead → LeadTables → Option LeadTables → SaveResult × LeadTables
saved_with l t none = (save_threw, t)
saved_with l t (some u) = (kept_lead l, u)

-- The lead of the fingerprint is there, or a row is inserted under an identifier that is not in use.
abbrev pub save_job : ℕ → ℕ → ℕ → CollectedJob → Option Lead → LeadTables → SaveResult × LeadTables
save_job now id owner job (some l) t = (kept_lead l, t)
save_job now id owner job none t =
    if any (λ l. l.id == id) t.leads
    then (save_threw, t)
    else saved_with (new_lead now id owner job) t (
        insert_history (first_history now owner id)
          (record t { leads = t.leads ++ (new_lead now id owner job ∷ []) }))

abbrev pub save_found : ℕ → ℕ → ℕ → Option FoundJob → LeadTables → SaveResult × LeadTables
save_found now id owner none t = (no_job, t)
save_found now id owner (some j) t =
    save_job now id owner j.data_row (find (is_fingerprint owner j.data_row.fingerprint) t.leads) t

unfoldable pub save :
    ℕ → ℕ → ℕ → ℕ → List FoundJob → List SearchRun → LeadTables → SaveResult × LeadTables
save now id owner job_id jobs runs t =
    save_found now id owner (find (is_source_job owner job_id runs) jobs) t
