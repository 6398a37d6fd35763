-- ===== src/Search/Settle.antt =====
-- database.ts: starting, completing, failing and cancelling a search. Each is one transaction: a
-- call that throws, or that finds the lease lost, leaves the database as it was.
use careerscope.Base.{
  leb, holds, ℕ, ◌+◌, Bool, true, false, not, ◌&&◌, Option, none, some, List, [], ◌∷◌, ◌++◌, map,
  ltb, ◌==◌, if◌then◌else◌, any, all, length,
}
use careerscope.Base.Table.{update}
use careerscope.Search.State.{
  run, execution, Command, search_collect, is_type, ExecutionStatus, Source, is_source,
  SourceOutcome, RunStatus, is_open, SearchRun, CollectedJob, SearchJob, JobSighting, EventType,
  RunEvent, Database, Failure, Result, ok, err,
}
use careerscope.Search.Lease.{live_for, is_stored}

abbrev pub event : Command → EventType → RunEvent
event c k = record { run_id = c.aggregate_id; owner_id = c.owner_id; kind = k }

-- `id = $1 AND owner_id = $2`.
abbrev pub is_run : ℕ → ℕ → SearchRun → Bool
is_run id owner r = r.id == id && r.owner_id == owner

abbrev pub is_queued : RunStatus → Bool
is_queued RunStatus.queued = true
is_queued _ = false

abbrev pub is_running_run : RunStatus → Bool
is_running_run RunStatus.running = true
is_running_run _ = false

-- The lease and the stored command that the first statement of a transaction checks.
abbrev pub owns : ℕ → Command → ℕ → Database → Bool
owns now c fence db = holds (live_for now c.id fence) (execution c.id db) && is_stored c db

abbrev pub is_queued_run : Command → SearchRun → Bool
is_queued_run c r = is_run c.aggregate_id c.owner_id r && is_queued r.status

abbrev pub is_started_run : Command → SearchRun → Bool
is_started_run c r = is_run c.aggregate_id c.owner_id r && is_running_run r.status

-- The database after a start that moves the run from queued to running.
unfoldable pub started : Command → Database → Database
started c db = record db {
  runs = update (is_queued_run c) (λ r. record r { status = RunStatus.running }) db.runs;
  events = db.events ++ event c EventType.search_started ∷ [];
}

unfoldable pub start_search : ℕ → Command → ℕ → Database → Result Bool × Database
start_search now c fence db =
    if not (is_type c.kind search_collect)
    then (err Failure.unsupported_start_type, db)
    else if not (owns now c fence db)
    then (ok false, db)
    else if holds (is_queued_run c) (run c.aggregate_id db)
    then (ok true, started c db)
    else if holds (is_started_run c) (run c.aggregate_id db)
    then (ok true, db)
    else (err Failure.search_cannot_start, db)

-- `INSERT INTO search_jobs … ON CONFLICT (run_id, fingerprint) DO NOTHING`.
unfoldable pub insert_job : Command → CollectedJob → List SearchJob → List SearchJob
insert_job c job rows =
    if any (λ (r : SearchJob). r.run_id == c.aggregate_id && r.fingerprint == job.fingerprint) rows
    then rows
    else rows
      ++ record {
        run_id = c.aggregate_id;
        owner_id = c.owner_id;
        fingerprint = job.fingerprint;
        job = job;
      }
        ∷ []

-- Both dates are known and the new one is later.
abbrev is_repost : Option ℕ → Option ℕ → Bool
is_repost (some new) (some old) = ltb old new
is_repost _ _ = false

abbrev coalesce : Option ℕ → Option ℕ → Option ℕ
coalesce none o = o
coalesce (some a) o = some a

abbrev sighted_again : ℕ → Command → CollectedJob → JobSighting → JobSighting
sighted_again now c job s = record s {
  last_seen_at = now;
  sightings = s.sightings + 1;
  title = job.title;
  company = job.company;
  last_posted_at = coalesce job.posted_at s.last_posted_at;
  repost_count = s.repost_count + (if is_repost job.posted_at s.last_posted_at then 1 else 0);
  last_run_id = c.aggregate_id;
}

abbrev first_sighting : ℕ → Command → CollectedJob → JobSighting
first_sighting now c job = record {
  owner_id = c.owner_id;
  fingerprint = job.fingerprint;
  title = job.title;
  company = job.company;
  first_posted_at = job.posted_at;
  last_posted_at = job.posted_at;
  last_run_id = c.aggregate_id;
  last_seen_at = now;
  sightings = 1;
  repost_count = 0;
}

abbrev pub is_sighting : ℕ → ℕ → JobSighting → Bool
is_sighting owner fingerprint s = s.owner_id == owner && s.fingerprint == fingerprint

-- `INSERT INTO job_sightings … ON CONFLICT (owner_id, fingerprint) DO UPDATE`. The columns'
-- defaults are one sighting, no repost, and the time of the insert.
unfoldable pub record_sighting : ℕ → Command → CollectedJob → List JobSighting → List JobSighting
record_sighting now c job rows =
    if any (is_sighting c.owner_id job.fingerprint) rows
    then update (is_sighting c.owner_id job.fingerprint) (sighted_again now c job) rows
    else rows ++ first_sighting now c job ∷ []

-- The loop over the jobs of a settlement.
unfoldable pub store_jobs : ℕ → Command → List CollectedJob → Database → Database
unfolding insert_job record_sighting
store_jobs now c [] db = db
store_jobs now c (job ∷ jobs) db = store_jobs now c jobs (record db {
  jobs = insert_job c job db.jobs;
  sightings = record_sighting now c job db.sightings;
})

abbrev pub execution_result : RunStatus → ExecutionStatus
execution_result RunStatus.failed = ExecutionStatus.failed
execution_result _ = ExecutionStatus.completed

abbrev completion_event : RunStatus → EventType
completion_event RunStatus.completed = EventType.search_completed
completion_event RunStatus.partial = EventType.search_partial
completion_event _ = EventType.search_failed

abbrev has_source : List Source → Source → Bool
has_source sources s = any (is_source s) sources

-- `request->'sources' @> $5 AND request->'sources' <@ $5`, or no outcomes at all.
unfoldable pub same_sources : SearchRun → Option (List SourceOutcome) → Bool
same_sources r none = true
same_sources r (some outcomes) =
    all (λ (o : SourceOutcome). has_source r.request.sources o.source) outcomes
    && all (has_source (map (λ o. o.source) outcomes)) r.request.sources

abbrev pub is_eligible : Command → Option (List SourceOutcome) → SearchRun → Bool
is_eligible c outcomes r =
    is_run c.aggregate_id c.owner_id r && is_open r.status && same_sources r outcomes

-- With outcomes the execution is completed, whatever the run's status says of the result.
abbrev pub settled_as : Option (List SourceOutcome) → RunStatus → ExecutionStatus
settled_as none status = execution_result status
settled_as (some outcomes) status = ExecutionStatus.completed

-- `search_outcomes_bounded`: one to five outcomes. The text of five valid ones is below its 2048 bytes.
abbrev is_bounded : Option (List SourceOutcome) → Bool
is_bounded none = true
is_bounded (some outcomes) = leb 1 (length outcomes) && leb (length outcomes) 5

-- The database after a settlement that is committed.
unfoldable pub settled :
    ℕ
    → Command
    → ℕ
    → List CollectedJob
    → RunStatus
    → Option (List SourceOutcome)
    → Database
    → Database
settled now c fence jobs status outcomes db =
    let stored = store_jobs now c jobs db in
    record stored {
      executions =
          update (live_for now c.id fence) (λ e. record e { status = settled_as outcomes status })
            db.executions;
      runs =
          update (is_eligible c outcomes)
            (λ r. record r { status = status; source_outcomes = outcomes }) db.runs;
      events = db.events ++ event c (completion_event status) ∷ [];
    }

-- `settle`, the one completion path. At most 100 jobs are accepted.
unfoldable pub settle :
    ℕ
    → Command
    → ℕ
    → List CollectedJob
    → RunStatus
    → Option (List SourceOutcome)
    → Database
    → Result Bool × Database
settle now c fence jobs status outcomes db =
    if ltb 100 (length jobs)
    then (err Failure.invalid_input, db)
    else if not (is_type c.kind search_collect)
    then (err Failure.unsupported_completion_type, db)
    else if not (owns now c fence db)
    then (ok false, db)
    else if not (holds (is_eligible c outcomes) (run c.aggregate_id db))
    then (err Failure.not_eligible, db)
    else if not (is_bounded outcomes)
    then (err Failure.constraint_violated, db)
    else (ok true, settled now c fence jobs status outcomes db)

unfoldable pub complete : ℕ → Command → ℕ → List CollectedJob → Database → Result Bool × Database
unfolding settle
complete now c fence jobs db = settle now c fence jobs RunStatus.completed none db

unfoldable pub fail : ℕ → Command → ℕ → Database → Result Bool × Database
unfolding settle
fail now c fence db = settle now c fence [] RunStatus.failed none db
