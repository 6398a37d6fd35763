-- ===== src/Search/Examples.antt =====
-- Concrete runs of the theorems on packages/core/src/database.ts.
use careerscope.Search.Idempotency.{create_search_again}
use careerscope.Commands.{sort_sources, parse_request, RequestInput}
use careerscope.Search.Create.{new_run, create_search, Fresh}
use mathlib.Core.List.{Permᴰ}
use careerscope.Search.Exclusion.{
  taken_over_is_stale, lease_excludes, claim_fences_grow, settle_once,
}
use careerscope.Search.Runs.{run_keeps, closed_run_stays}
use careerscope.Base.Table.{update, find}
use careerscope.Search.Settle.{same_sources, settle}
use careerscope.Search.Lease.{renew, release, claim}
use careerscope.Base.{ℕ, none, some, true, false, [], ◌∷◌, refl, arith, ◌≡◌, ◌≢◌, ◌<◌}
use careerscope.Search.State.{
  command_eq, execution, outbox_row, run, CollectedJob, Command, search_collect, Request, RunStatus,
  SearchRun, Database, ExecutionStatus, ok, Text, Origin, Source,
}
use careerscope.Search.Trace.{step, after, claim_lease, renew_lease, start, fail_search}

abbrev sample_trim : Text → Text
sample_trim t = t

abbrev sample_hash : Request → ℕ
sample_hash r = 0

abbrev sample_command : Command
sample_command = record {
  id = 1;
  kind = search_collect;
  aggregate_id = 10;
  owner_id = 7;
  occurred_at = 1000;
  correlation_id = 5;
  causation_id = none;
}

abbrev sample_run : SearchRun
sample_run = record {
  id = 10;
  owner_id = 7;
  status = RunStatus.queued;
  request = record {
    query = 100 ∷ 101 ∷ [];
    use_profile_titles = none;
    origin = Origin.manual;
    sources = Source.lever ∷ [];
  };
  request_hash = 0;
  idempotency_key = 3;
  matching_profile = none;
  profile_revision = none;
  source_outcomes = none;
  created_at = 1000;
}

abbrev sample_db : Database
sample_db = record {
  outbox = record { id = 1; command = sample_command; published_at = none; created_at = 1000 } ∷ [];
  executions = [];
  runs = sample_run ∷ [];
  jobs = [];
  sightings = [];
  events = [];
}

abbrev claimed_db : Database
claimed_db = record sample_db {
  executions =
      record {
        id = 1;
        status = ExecutionStatus.running;
        fence = 1;
        attempts = 1;
        lease_until = 62000;
      }
      ∷ [];
}

abbrev sample_job : CollectedJob
sample_job = record {
  fingerprint = 77;
  title = 4;
  company = 9;
  source = Source.lever;
  source_links = [];
  posted_at = none;
  content = 0;
}

settle_once_example :
    (settle 4000 sample_command 1 [] RunStatus.failed none (
      after sample_trim sample_hash
        ((3000, claim_lease 1 60) ∷ [])
        (settle 2500 sample_command 1 (sample_job ∷ []) RunStatus.completed none claimed_db).1)).0
    ≢ ok true
unfolding settle run find execution outbox_row command_eq same_sources
settle_once_example =
    settle_once sample_trim sample_hash 2500 sample_command 1 (sample_job ∷ []) RunStatus.completed
      none claimed_db ((3000, claim_lease 1 60) ∷ []) 4000 sample_command 1 [] RunStatus.failed none
      refl refl

claim_fences_grow_example : 1 < 2
unfolding claim after step renew release outbox_row execution find update
claim_fences_grow_example =
    claim_fences_grow sample_trim sample_hash 2000 1 60 sample_db ((2500, renew_lease 1 1 60) ∷ [])
      90000 60 1 2 refl refl

taken_over_is_stale_example :
    let end =
      after sample_trim sample_hash
        ((91000, start sample_command 2) ∷ [])
        (claim 90000 1 60 (after sample_trim sample_hash [] (claim 2000 1 60 sample_db).1)).1 in
    ((settle 91500 sample_command 1 [] RunStatus.completed none end).0 ≢ ok true)
    × ((renew 91500 1 1 60 end).0 ≡ false)
unfolding claim after step outbox_row execution find update
taken_over_is_stale_example =
    taken_over_is_stale sample_trim sample_hash 2000 60 sample_command sample_db 1 2 []
      ((91000, start sample_command 2) ∷ []) 90000 60 91500 [] RunStatus.completed none 60 refl refl

lease_excludes_example :
    let mine = (claim 2000 1 60 sample_db).1 in
    (claim 60000 1 60 mine ≡ (none, mine)) × ((claim 3001 1 60 (release 3000 1 1 mine)).0 ≡ some 2)
unfolding claim outbox_row execution find
lease_excludes_example =
    lease_excludes 2000 1 60 sample_db 1 60000 60 3000 3001 60 refl (omega arith) (omega arith)

run_keeps_example :
    (q : SearchRun) × (run 10
        (after sample_trim sample_hash ((3000, start sample_command 1) ∷ []) claimed_db)
      ≡ some q)
    × (q.owner_id ≡ 7)
    × (q.request ≡ sample_run.request)
    × (q.matching_profile ≡ none)
unfolding run find
run_keeps_example =
    run_keeps sample_trim sample_hash ((3000, start sample_command 1) ∷ []) 10 claimed_db sample_run
      refl

abbrev failed_run : SearchRun
failed_run = record sample_run { status = RunStatus.failed }

abbrev failed_db : Database
failed_db = record claimed_db { runs = failed_run ∷ [] }

closed_run_stays_example :
    run 10 (after sample_trim sample_hash ((3000, fail_search sample_command 1) ∷ []) failed_db)
    ≡ some failed_run
unfolding run find
closed_run_stays_example =
    closed_run_stays sample_trim sample_hash ((3000, fail_search sample_command 1) ∷ []) 10
      failed_db failed_run refl refl

abbrev sample_fresh : Fresh
sample_fresh = record { run_id = 20; command_id = 30; now = 4000 }

abbrev sample_input : RequestInput
sample_input = record {
  query = 100 ∷ 101 ∷ [];
  use_profile_titles = none;
  origin = none;
  sources = Source.lever ∷ Source.ashby ∷ [];
}

abbrev sorted_request : Request
sorted_request = record {
  query = 100 ∷ 101 ∷ [];
  use_profile_titles = none;
  origin = Origin.manual;
  sources = Source.ashby ∷ Source.lever ∷ [];
}

create_search_again_example :
    let left =
      (create_search sample_trim sample_hash sample_fresh 7 4 sample_input [] [] sample_db).1 in
    create_search sample_trim sample_hash sample_fresh 7 4
      (record sample_input { sources = Source.ashby ∷ Source.lever ∷ [] })
      []
      []
      left
    ≡ (ok (new_run sample_trim sample_hash sample_fresh 7 4 sorted_request [] []), left)
unfolding create_search parse_request sort_sources find
create_search_again_example =
    create_search_again sample_trim sample_hash 7 4 sample_fresh sample_input [] [] sample_db
      (new_run sample_trim sample_hash sample_fresh 7 4 sorted_request [] []) sample_fresh
      (Source.ashby ∷ Source.lever ∷ []) [] [] refl ∣ Permᴰ.swap refl refl ∣₁
