-- ===== src/Search/Fences.antt =====
-- packages/core/src/database.ts: a command's execution over any calls that change the tables.
use careerscope.Base.{
  ℕ, ◌≤◌, ◌≡◌, ◌∙◌, refl, inl, inr, Bool, true, false, Option, none, some, List, [], ◌∷◌, ◌++◌,
  arith, ◌==◌, is_some, Bool-cases,
}
use careerscope.Base.Table.{find, update, adjust, or_else, find-update, find-append}
use careerscope.Search.State.{
  Command, is_running, Execution, Database, execution, RunStatus, SourceOutcome, CollectedJob, Text,
  Request,
}
use careerscope.Search.Lease.{claim, renew, release, published}
use careerscope.Search.Settle.{started, settled, complete, fail}
use careerscope.Search.Cancel.{cancelled}
use careerscope.Search.Collection.{collection_status}
use careerscope.Search.Create.{created}
use careerscope.Search.Commits.{
  claim_commits, settle_commits, complete_collection_commits, start_search_commits,
  cancel_search_commits, create_search_commits,
}
use careerscope.Search.Trace.{
  Call, create, cancel, claim_lease, renew_lease, release_lease, mark_published, start,
  complete_search, fail_search, collect, step, after,
}

-- What a later state of an execution may be.
abbrev pub Advances : Option Execution → Option Execution → Type 0
Advances none o = Unit
Advances (some e) none = ⊥
Advances (some e) (some f) = (e.fence ≤ f.fence) × (is_running e.status ≡ false → f ≡ e)

pub Advances-refl : (o : Option Execution) → Advances o o
Advances-refl none = tt
Advances-refl (some e) = (omega arith, λ h. refl)

pub Advances-trans : (a b c : Option Execution) → Advances a b → Advances b c → Advances a c
Advances-trans none b c h k = tt
Advances-trans (some x) none c h k = absurd h
Advances-trans (some x) (some y) none h k = absurd k
Advances-trans (some x) (some y) (some z) h k = (omega arith, λ r. k.1 (rw (h.1 r) r) ∙ h.1 r)

-- A statement that touches running executions only, and lowers no fence.
Advances-adjust :
    (q : Execution → Bool) (f : Execution → Execution) (o : Option Execution)
    → ((e : Execution) → q e ≡ true → (is_running e.status ≡ true) × (e.fence ≤ (f e).fence))
    → Advances o (adjust q f o)
Advances-adjust q f none h = tt
Advances-adjust q f (some e) h = elim (Bool-cases (q e)) [
  | inl t ↦ rw t ((h e t).1, λ r. cc ((h e t).0))
  | inr t ↦ rw t (omega arith, λ r. refl)
]

Advances-or_else : (o p : Option Execution) → Advances o (or_else o p)
Advances-or_else none p = tt
Advances-or_else (some e) p = Advances-refl (some e)

Advances-update :
    (id : ℕ) (q : Execution → Bool) (f : Execution → Execution) (rows : List Execution)
    → ((e : Execution) → ((f e).id == id) ≡ (e.id == id))
    → ((e : Execution) → q e ≡ true → (is_running e.status ≡ true) × (e.fence ≤ (f e).fence))
    → Advances (find (λ e. e.id == id) rows) (find (λ e. e.id == id) (update q f rows))
Advances-update id q f rows same h =
    rw (find-update (λ e. e.id == id) q f rows same)
      (Advances-adjust q f (find (λ e. e.id == id) rows) h)

Advances-append :
    (id : ℕ) (rows added : List Execution)
    → Advances (find (λ e. e.id == id) rows) (find (λ e. e.id == id) (rows ++ added))
Advances-append id rows added = rw (find-append (λ e. e.id == id) rows added) (Advances-or_else _ _)

claim-Advances :
    (now id s k : ℕ) (db : Database) → Advances (execution k db) (execution k (claim now id s db).1)
claim-Advances now id s k db = elim (claim_commits now id s db) [
  | inl e ↦ rw e (Advances-refl _)
  | inr (inl e) ↦ rw e (unfold execution in Advances-append k db.executions _)
  | inr (inr e) ↦
      rw e
        (unfold execution in Advances-update k _ _ db.executions (λ y. refl) (λ y t. ground arith))
]

renew-Advances :
    (now id fence s k : ℕ) (db : Database)
    → Advances (execution k db) (execution k (renew now id fence s db).1)
unfolding renew execution
renew-Advances now id fence s k db =
    Advances-update k _ _ db.executions (λ y. refl) (λ y t. ground arith)

pub release-Advances :
    (now id fence k : ℕ) (db : Database)
    → Advances (execution k db) (execution k (release now id fence db))
unfolding release execution
release-Advances now id fence k db =
    Advances-update k _ _ db.executions (λ y. refl) (λ y t. ground arith)

settled-Advances :
    (now : ℕ) (c : Command) (fence : ℕ) (jobs : List CollectedJob) (status : RunStatus)
    (outcomes : Option (List SourceOutcome)) (k : ℕ) (db : Database)
    → Advances (execution k db) (execution k (settled now c fence jobs status outcomes db))
unfolding settled execution
settled-Advances now c fence jobs status outcomes k db =
    Advances-update k _ _ db.executions (λ y. refl) (λ y t. ground arith)

cancelled-Advances :
    (now owner id command_id k : ℕ) (db : Database)
    → Advances (execution k db) (execution k (cancelled now owner id command_id db))
unfolding cancelled execution
cancelled-Advances now owner id command_id k db =
    elim (Bool-cases (is_some (find (λ e. e.id == command_id) db.executions))) [
      | inl e ↦ rw e (Advances-update k _ _ db.executions (λ y. refl) (λ y t. ground arith))
      | inr e ↦ rw e (Advances-append k db.executions _)
    ]

module _ (trim : Text → Text) (hash : Request → ℕ) where
  -- No call lowers a fence or reopens a finished execution.
  step-Advances :
      (now : ℕ) (call : Call) (k : ℕ) (db : Database)
      → Advances (execution k db) (execution k (step trim hash now call db))
  unfolding step
  step-Advances now (create f owner key input profiles resumes) k db =
      elim (create_search_commits trim hash f owner key input profiles resumes db) [
        | inl e ↦ rw e (Advances-refl _)
        | inr (r, e) ↦ rw e (unfold created execution in Advances-refl _)
      ]
  step-Advances now (cancel owner id) k db = elim (cancel_search_commits now owner id db) [
    | inl e ↦ rw e (Advances-refl _)
    | inr (o, _, e) ↦ rw e (cancelled-Advances now owner id o.id k db)
  ]
  step-Advances now (claim_lease id s) k db = claim-Advances now id s k db
  step-Advances now (renew_lease id fence s) k db = renew-Advances now id fence s k db
  step-Advances now (release_lease id fence) k db = release-Advances now id fence k db
  step-Advances now (mark_published id) k db = unfold published execution in Advances-refl _
  step-Advances now (start c fence) k db = elim (start_search_commits now c fence db) [
    | inl e ↦ rw e (Advances-refl _)
    | inr e ↦ rw e (unfold started execution in Advances-refl _)
  ]
  step-Advances now (complete_search c fence jobs) k db =
      unfold complete in
      elim (settle_commits now c fence jobs RunStatus.completed none db) [
        | inl e ↦ rw e (Advances-refl _)
        | inr e ↦ rw e (settled-Advances now c fence jobs RunStatus.completed none k db)
      ]
  step-Advances now (fail_search c fence) k db =
      unfold fail in
      elim (settle_commits now c fence [] RunStatus.failed none db) [
        | inl e ↦ rw e (Advances-refl _)
        | inr e ↦ rw e (settled-Advances now c fence [] RunStatus.failed none k db)
      ]
  step-Advances now (collect c fence jobs outcomes) k db =
      elim (complete_collection_commits now c fence jobs outcomes db) [
        | inl e ↦ rw e (Advances-refl _)
        | inr e ↦ rw e (
            settled-Advances now c fence jobs (collection_status jobs outcomes) (some outcomes) k
              db)
      ]

  -- Over any sequence of calls a fence never falls, and a finished execution stays as it is.
  pub after-Advances :
      (calls : List (ℕ × Call)) (k : ℕ) (db : Database)
      → Advances (execution k db) (execution k (after trim hash calls db))
  unfolding after
  after-Advances [] k db = Advances-refl _
  after-Advances ((now, call) ∷ calls) k db =
      Advances-trans _ (execution k (step trim hash now call db)) _ (step-Advances now call k db)
        (after-Advances calls k (step trim hash now call db))
