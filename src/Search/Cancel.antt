-- ===== src/Search/Cancel.antt =====
-- database.ts: `getSearch` and `cancelSearch`.
use careerscope.Base.{
  ℕ, ◌+◌, Bool, not, ◌&&◌, Option, none, some, List, [], ◌∷◌, ◌++◌, ◌==◌, if◌then◌else◌, holds,
  is_some,
}
use careerscope.Base.Table.{find, update, count}
use careerscope.Search.State.{
  search_collect, is_type, is_running, Execution, ExecutionStatus, OutboxRow, RunStatus, is_open,
  SearchRun, EventType, Database, Failure, Result, ok, err, run,
}
use careerscope.Search.Settle.{is_run}

-- The run if it belongs to the owner.
unfoldable pub get_search : ℕ → ℕ → Database → Option SearchRun
get_search owner id db = find (λ r. r.owner_id == owner && r.id == id) db.runs

-- The `search.collect` command of a run.
abbrev pub is_command_of : ℕ → ℕ → OutboxRow → Bool
is_command_of owner id o =
    o.command.aggregate_id == id
    && o.command.owner_id == owner
    && is_type o.command.kind search_collect

abbrev is_running_row : ℕ → Execution → Bool
is_running_row id e = e.id == id && is_running e.status

abbrev pub cancelled_execution : ℕ → ℕ → Execution
cancelled_execution now id = record {
  id = id;
  status = ExecutionStatus.completed;
  fence = 1;
  attempts = 0;
  lease_until = now;
}

-- `INSERT … VALUES ('completed', 1, 0, now()) ON CONFLICT (id) DO UPDATE … WHERE running`.
unfoldable pub finish_execution : ℕ → ℕ → List Execution → List Execution
finish_execution now id rows =
    if is_some (find (λ e. e.id == id) rows)
    then update (is_running_row id)
        (λ e. record e {
          status = ExecutionStatus.completed;
          fence = e.fence + 1;
          lease_until = now;
        })
        rows
    else rows ++ cancelled_execution now id ∷ []

-- The database after a cancellation that is committed; `command_id` names the run's command.
unfoldable pub cancelled : ℕ → ℕ → ℕ → ℕ → Database → Database
unfolding finish_execution
cancelled now owner id command_id db = record db {
  executions = finish_execution now command_id db.executions;
  runs =
      update (λ r. is_run id owner r && is_open r.status)
        (λ r. record r { status = RunStatus.cancelled }) db.runs;
  events =
      db.events ++ record { run_id = id; owner_id = owner; kind = EventType.search_cancelled } ∷ [];
}

-- A run that is no longer open is left alone, with its command: the transaction is rolled back.
unfoldable pub cancel_search : ℕ → ℕ → ℕ → Database → Result (Option SearchRun) × Database
unfolding get_search
cancel_search now owner id db =
    if not (holds (is_run id owner) (run id db))
    then (ok none, db)
    else if not (count (is_command_of owner id) db.outbox == 1)
    then (err Failure.search_command_missing, db)
    else elim (find (is_command_of owner id) db.outbox) [
      | none ↦ (err Failure.search_command_missing, db)
      | some o ↦
          if holds (λ (r : SearchRun). is_run id owner r && is_open r.status) (run id db)
          then (
            ok (get_search owner id (cancelled now owner id o.id db)),
            cancelled now owner id o.id db,
          )
          else (ok (get_search owner id db), db)
    ]
