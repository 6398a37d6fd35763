-- ===== src/Search/Runs.antt =====
-- packages/core/src/database.ts: a search run over any calls that change the tables.
use careerscope.Search.Collection.{collection_status}
use careerscope.Search.Lease.{published, release, renew}
use careerscope.Search.Create.{created}
use careerscope.Search.Commits.{
  complete_collection_commits, settle_commits, start_search_commits, claim_commits,
  cancel_search_commits, create_search_commits,
}
use careerscope.Search.Trace.{
  collect, fail_search, complete_search, start, mark_published, release_lease, renew_lease,
  claim_lease, cancel, create, Call, step, after,
}
use careerscope.Base.Table.{find-update, adjust, update, find-append, or_else, find}
use careerscope.Search.Settle.{fail, complete, started, settled}
use careerscope.Search.Cancel.{cancelled}
use careerscope.Search.State.{
  is_open, SourceOutcome, CollectedJob, RunStatus, Database, Command, run, Request, Text, SearchRun,
}
use careerscope.Base.{
  ap, Option-cases, ◌∷◌, [], refl, none, inr, Bool-cases, inl, true, false, ◌++◌, arith, ◌≡◌, ◌∙◌,
  ◌==◌, some, Bool, Option, List, ℕ,
}

-- What a later state of a run may be.
abbrev pub Evolves : Option SearchRun → Option SearchRun → Type 0
Evolves none o = Unit
Evolves (some r) none = ⊥
Evolves (some r) (some q) =
    (q.owner_id ≡ r.owner_id)
    × (q.request ≡ r.request)
    × (q.matching_profile ≡ r.matching_profile)
    × (is_open r.status ≡ false → q ≡ r)

Evolves-refl : (o : Option SearchRun) → Evolves o o
Evolves-refl none = tt
Evolves-refl (some r) = (refl, refl, refl, λ h. refl)

Evolves-trans : (a b c : Option SearchRun) → Evolves a b → Evolves b c → Evolves a c
Evolves-trans none b c h k = tt
Evolves-trans (some x) none c h k = absurd h
Evolves-trans (some x) (some y) none h k = absurd k
Evolves-trans (some x) (some y) (some z) h k =
    (k.0 ∙ h.0, k.1 ∙ h.1, k.2 ∙ h.2, λ r. k.3 (rw (h.3 r) r) ∙ h.3 r)

-- A statement that touches open runs only, and writes their status and outcomes only.
Evolves-update :
    (id : ℕ) (q : SearchRun → Bool) (status : RunStatus)
    (outcomes : SearchRun → Option (List SourceOutcome)) (rows : List SearchRun)
    → ((r : SearchRun) → q r ≡ true → is_open r.status ≡ true)
    → Evolves (find (λ r. r.id == id) rows) (
        find
          (λ r. r.id == id)
          (update q (λ r. record r { status = status; source_outcomes = outcomes r }) rows))
Evolves-update id q status outcomes rows h =
    rw
      (find-update (λ r. r.id == id) q
        (λ r. record r { status = status; source_outcomes = outcomes r }) rows (λ r. refl))
      (adjusted (find (λ r. r.id == id) rows))
  where
    adjusted :
        (o : Option SearchRun)
        → Evolves o (adjust q (λ r. record r { status = status; source_outcomes = outcomes r }) o)
    adjusted none = tt
    adjusted (some r) = elim (Bool-cases (q r)) [
      | inl t ↦ rw t (refl, refl, refl, λ k. cc (h r t))
      | inr t ↦ rw t (refl, refl, refl, λ k. refl)
    ]

Evolves-append :
    (id : ℕ) (rows added : List SearchRun)
    → Evolves (find (λ r. r.id == id) rows) (find (λ r. r.id == id) (rows ++ added))
Evolves-append id rows added = rw (find-append (λ r. r.id == id) rows added) (kept _ _)
  where
    kept : (o p : Option SearchRun) → Evolves o (or_else o p)
    kept none p = tt
    kept (some r) p = Evolves-refl (some r)

settled-Evolves :
    (now : ℕ) (c : Command) (fence : ℕ) (jobs : List CollectedJob) (status : RunStatus)
    (outcomes : Option (List SourceOutcome)) (k : ℕ) (db : Database)
    → Evolves (run k db) (run k (settled now c fence jobs status outcomes db))
unfolding settled run
settled-Evolves now c fence jobs status outcomes k db =
    Evolves-update k _ status (λ r. outcomes) db.runs (λ r t. ground arith)

started-Evolves : (c : Command) (k : ℕ) (db : Database) → Evolves (run k db) (run k (started c db))
unfolding started run
started-Evolves c k db =
    Evolves-update k _ RunStatus.running (λ r. r.source_outcomes) db.runs (λ r t. ground arith)

cancelled-Evolves :
    (now owner id command_id k : ℕ) (db : Database)
    → Evolves (run k db) (run k (cancelled now owner id command_id db))
unfolding cancelled run
cancelled-Evolves now owner id command_id k db =
    Evolves-update k _ RunStatus.cancelled (λ r. r.source_outcomes) db.runs (λ r t. ground arith)

module _ (trim : Text → Text) (hash : Request → ℕ) where
  step-Evolves :
      (now : ℕ) (call : Call) (k : ℕ) (db : Database)
      → Evolves (run k db) (run k (step trim hash now call db))
  unfolding step
  step-Evolves now (create f owner key input profiles resumes) k db =
      elim (create_search_commits trim hash f owner key input profiles resumes db) [
        | inl e ↦ rw e (Evolves-refl _)
        | inr (r, e) ↦ rw e (unfold created run in Evolves-append k db.runs _)
      ]
  step-Evolves now (cancel owner id) k db = elim (cancel_search_commits now owner id db) [
    | inl e ↦ rw e (Evolves-refl _)
    | inr (o, _, e) ↦ rw e (cancelled-Evolves now owner id o.id k db)
  ]
  step-Evolves now (claim_lease id s) k db = elim (claim_commits now id s db) [
    | inl e ↦ rw e (Evolves-refl _)
    | inr (inl e) ↦ rw e (unfold run in Evolves-refl _)
    | inr (inr e) ↦ rw e (unfold run in Evolves-refl _)
  ]
  step-Evolves now (renew_lease id fence s) k db = unfold renew run in Evolves-refl _
  step-Evolves now (release_lease id fence) k db = unfold release run in Evolves-refl _
  step-Evolves now (mark_published id) k db = unfold published run in Evolves-refl _
  step-Evolves now (start c fence) k db = elim (start_search_commits now c fence db) [
    | inl e ↦ rw e (Evolves-refl _)
    | inr e ↦ rw e (started-Evolves c k db)
  ]
  step-Evolves now (complete_search c fence jobs) k db =
      unfold complete in
      elim (settle_commits now c fence jobs RunStatus.completed none db) [
        | inl e ↦ rw e (Evolves-refl _)
        | inr e ↦ rw e (settled-Evolves now c fence jobs RunStatus.completed none k db)
      ]
  step-Evolves now (fail_search c fence) k db =
      unfold fail in
      elim (settle_commits now c fence [] RunStatus.failed none db) [
        | inl e ↦ rw e (Evolves-refl _)
        | inr e ↦ rw e (settled-Evolves now c fence [] RunStatus.failed none k db)
      ]
  step-Evolves now (collect c fence jobs outcomes) k db =
      elim (complete_collection_commits now c fence jobs outcomes db) [
        | inl e ↦ rw e (Evolves-refl _)
        | inr e ↦ rw e (
            settled-Evolves now c fence jobs (collection_status jobs outcomes) (some outcomes) k db)
      ]

  after-Evolves :
      (calls : List (ℕ × Call)) (k : ℕ) (db : Database)
      → Evolves (run k db) (run k (after trim hash calls db))
  unfolding after
  after-Evolves [] k db = Evolves-refl _
  after-Evolves ((now, call) ∷ calls) k db =
      Evolves-trans _ (run k (step trim hash now call db)) _ (step-Evolves now call k db)
        (after-Evolves calls k (step trim hash now call db))

  run_evolved :
      (calls : List (ℕ × Call)) (k : ℕ) (db : Database) (r : SearchRun)
      → run k db ≡ some r
      → (q : SearchRun) × (run k (after trim hash calls db) ≡ some q) × Evolves (some r) (some q)
  run_evolved calls k db r h = elim (Option-cases (run k (after trim hash calls db))) [
    | inl e ↦ absurd (rw (h, e) at (after-Evolves calls k db))
    | inr (q, e) ↦ (q, e, rw (h, e) at (after-Evolves calls k db))
  ]

  -- Over any calls a run is never lost, and its owner, its request and its profile snapshot stay as
  -- they were made.
  pub run_keeps :
      (calls : List (ℕ × Call)) (k : ℕ) (db : Database) (r : SearchRun)
      → run k db ≡ some r
      → (q : SearchRun) × (run k (after trim hash calls db) ≡ some q)
        × (q.owner_id ≡ r.owner_id)
        × (q.request ≡ r.request)
        × (q.matching_profile ≡ r.matching_profile)
  run_keeps calls k db r h = let (q, e, v) = run_evolved calls k db r h in (q, e, v.0, v.1, v.2)

  -- Over any calls a run that is completed, partial, failed or cancelled stays exactly as it is.
  pub closed_run_stays :
      (calls : List (ℕ × Call)) (k : ℕ) (db : Database) (r : SearchRun)
      → run k db ≡ some r
      → is_open r.status ≡ false
      → run k (after trim hash calls db) ≡ some r
  closed_run_stays calls k db r h stopped =
      let (q, e, v) = run_evolved calls k db r h in e ∙ ap some (v.3 stopped)
