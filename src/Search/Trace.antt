-- ===== src/Search/Trace.antt =====
-- database.ts: the calls that change the pipeline's tables, as one type, and their effect in a row.
use careerscope.Base.{ℕ, List, [], ◌∷◌}
use careerscope.Search.State.{Command, Text, Request, SourceOutcome, CollectedJob, Database}
use careerscope.Commands.{RequestInput}
use careerscope.Search.Lease.{claim, renew, release, published}
use careerscope.Search.Settle.{start_search, complete, fail}
use careerscope.Search.Cancel.{cancel_search}
use careerscope.Search.Collection.{complete_collection}
use careerscope.Search.Create.{ProfileRow, ResumeResult, Fresh, create_search}

-- A call with its arguments; the time of the call comes beside it.
pub data Call : Type 0 where
  create : Fresh → ℕ → ℕ → RequestInput → List ProfileRow → List ResumeResult → Call
  cancel : ℕ → ℕ → Call
  claim_lease : ℕ → ℕ → Call
  renew_lease : ℕ → ℕ → ℕ → Call
  release_lease : ℕ → ℕ → Call
  mark_published : ℕ → Call
  start : Command → ℕ → Call
  complete_search : Command → ℕ → List CollectedJob → Call
  fail_search : Command → ℕ → Call
  collect : Command → ℕ → List CollectedJob → List SourceOutcome → Call

module _ (trim : Text → Text) (hash : Request → ℕ) where
  -- The database after one call, whatever the call answers.
  unfoldable pub step : ℕ → Call → Database → Database
  step now (create f owner key input profiles resumes) db =
      (create_search trim hash f owner key input profiles resumes db).1
  step now (cancel owner id) db = (cancel_search now owner id db).1
  step now (claim_lease id lease_seconds) db = (claim now id lease_seconds db).1
  step now (renew_lease id fence lease_seconds) db = (renew now id fence lease_seconds db).1
  step now (release_lease id fence) db = release now id fence db
  step now (mark_published id) db = published now id db
  step now (start c fence) db = (start_search now c fence db).1
  step now (complete_search c fence jobs) db = (complete now c fence jobs db).1
  step now (fail_search c fence) db = (fail now c fence db).1
  step now (collect c fence jobs outcomes) db = (complete_collection now c fence jobs outcomes db).1

  -- Any calls by any processes, one after the other.
  unfoldable pub after : List (ℕ × Call) → Database → Database
  unfolding step
  after [] db = db
  after ((now, call) ∷ calls) db = after calls (step now call db)
