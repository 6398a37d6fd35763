-- ===== src/Search/Collection.antt =====
-- jobs.ts and database.ts: the outcome of each source, the run's status that follows from them, and
-- `completeCollection`.
use careerscope.Base.{
  ℕ, Bool, true, false, not, ◌&&◌, ◌||◌, some, List, [], ◌∷◌, ltb, leb, ◌==◌, if◌then◌else◌, any,
  all, keep, length, is_some,
}
use careerscope.Search.State.{
  Command, Source, is_source, SourceOutcome, OutcomeStatus, RunStatus, CollectedJob, SourceLink,
  Database, Failure, Result, err,
}
use careerscope.Search.Settle.{settle}

abbrev pub is_completed : OutcomeStatus → Bool
is_completed OutcomeStatus.completed = true
is_completed _ = false

abbrev pub is_failed : OutcomeStatus → Bool
is_failed OutcomeStatus.failed = true
is_failed _ = false

abbrev is_empty : OutcomeStatus → Bool
is_empty OutcomeStatus.empty = true
is_empty _ = false

abbrev same_bool : Bool → Bool → Bool
same_bool true b = b
same_bool false b = not b

-- The bounds and the two refinements of `sourceOutcomeSchema`.
unfoldable pub is_valid_outcome : SourceOutcome → Bool
is_valid_outcome o =
    leb o.accepted 100
    && same_bool (not (is_failed o.status)) (not (is_some o.error_code))
    && (not (is_empty o.status) || o.accepted == 0)

-- `new Set(values.map((value) => value.source)).size === values.length`.
abbrev pub distinct_sources : List SourceOutcome → Bool
distinct_sources [] = true
distinct_sources (o ∷ os) =
    not (any (λ (p : SourceOutcome). is_source o.source p.source) os) && distinct_sources os

-- `sourceOutcomesSchema`: one to six valid outcomes, one for each source.
unfoldable pub are_valid_outcomes : List SourceOutcome → Bool
unfolding is_valid_outcome
are_valid_outcomes os =
    leb 1 (length os) && leb (length os) 6 && all is_valid_outcome os && distinct_sources os

abbrev is_nonempty {ℓ} : {A : Type ℓ} → List A → Bool
is_nonempty [] = false
is_nonempty (x ∷ xs) = true

unfoldable pub collection_status : List CollectedJob → List SourceOutcome → RunStatus
collection_status jobs outcomes =
    if all (λ (o : SourceOutcome). is_completed o.status) outcomes
    then RunStatus.completed
    else if is_nonempty jobs || any (λ (o : SourceOutcome). not (is_failed o.status)) outcomes
    then RunStatus.partial
    else RunStatus.failed

abbrev pub of_source : Source → List CollectedJob → List CollectedJob
of_source s jobs = keep (λ (j : CollectedJob). is_source j.source s) jobs

-- The source has an outcome that accepted jobs.
abbrev pub is_accepted : List SourceOutcome → Source → Bool
is_accepted outcomes s =
    any (λ (o : SourceOutcome). is_source o.source s && ltb 0 o.accepted) outcomes

-- The three tests for which `completeCollection` throws, negated.
unfoldable pub jobs_match : List CollectedJob → List SourceOutcome → Bool
jobs_match jobs outcomes =
    not (any (λ (o : SourceOutcome). ltb o.accepted (length (of_source o.source jobs))) outcomes)
    && not (any (λ (j : CollectedJob). not (is_accepted outcomes j.source)) jobs)
    && not (
        any
          (λ (j : CollectedJob).
            any (λ (l : SourceLink). not (is_accepted outcomes l.source)) j.source_links)
          jobs)

unfoldable pub complete_collection :
    ℕ → Command → ℕ → List CollectedJob → List SourceOutcome → Database → Result Bool × Database
unfolding collection_status jobs_match are_valid_outcomes settle
complete_collection now c fence jobs outcomes db =
    if ltb 100 (length jobs) || not (are_valid_outcomes outcomes)
    then (err Failure.invalid_input, db)
    else if not (jobs_match jobs outcomes)
    then (err Failure.jobs_do_not_match, db)
    else settle now c fence jobs (collection_status jobs outcomes) (some outcomes) db
