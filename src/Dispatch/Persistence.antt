-- ===== src/Dispatch/Persistence.antt =====
-- packages/core/src/database.ts: the rows of the outbox over the calls that change them.
use careerscope.Search.Collection.{complete_collection}
use careerscope.Search.Create.{Fresh, created}
use careerscope.Search.Commits.{
  settle_commits, complete_collection_commits, create_search_commits, cancel_search_commits,
}
use careerscope.Search.Cancel.{cancelled, cancel_search}
use careerscope.Base.Table.{update, find, find-update, find-append, or_else, adjust}
use careerscope.Search.Settle.{fail, complete, settle, started, store_jobs, start_search, settled}
use careerscope.Search.Lease.{published, release, renew, claim}
use careerscope.Base.{
  ◌++◌, ◌==◌, ap, List, Bool-cases, ℕ, Option, Bool, none, some, [], ◌∷◌, inl, inr, refl, arith,
  ◌≡◌, ◌∙◌,
}
use careerscope.Search.State.{
  SearchRun, SourceOutcome, RunStatus, CollectedJob, Request, Command, Text, outbox_row, Database,
  OutboxRow,
}
use careerscope.Search.Trace.{
  step, after, Call, create, cancel, claim_lease, renew_lease, release_lease, mark_published, start,
  complete_search, fail_search, collect,
}

-- What a later read of a command may give.
abbrev pub Kept : Option OutboxRow → Option OutboxRow → Type 0
Kept none o = Unit
Kept (some a) none = ⊥
Kept (some a) (some b) = b.command ≡ a.command

Kept-refl : (o : Option OutboxRow) → Kept o o
Kept-refl none = tt
Kept-refl (some a) = refl

Kept-trans : (a b c : Option OutboxRow) → Kept a b → Kept b c → Kept a c
Kept-trans none b c h k = tt
Kept-trans (some x) none c h k = absurd h
Kept-trans (some x) (some y) none h k = absurd k
Kept-trans (some x) (some y) (some z) h k = k ∙ h

Kept-or_else : (o p : Option OutboxRow) → Kept o (or_else o p)
Kept-or_else none p = tt
Kept-or_else (some a) p = refl

Kept-adjust :
    (q : OutboxRow → Bool) (f : OutboxRow → OutboxRow) (o : Option OutboxRow)
    → ((a : OutboxRow) → (f a).command ≡ a.command)
    → Kept o (adjust q f o)
Kept-adjust q f none h = tt
Kept-adjust q f (some a) h = elim (Bool-cases (q a)) [ inl t ↦ rw t (h a) | inr t ↦ rw t refl ]

store_jobs-outbox :
    (now : ℕ) (c : Command) (jobs : List CollectedJob) (db : Database)
    → (store_jobs now c jobs db).outbox ≡ db.outbox
unfolding store_jobs
store_jobs-outbox now c [] db = refl
store_jobs-outbox now c (job ∷ jobs) db = store_jobs-outbox now c jobs _

settled-outbox :
    (now : ℕ) (c : Command) (fence : ℕ) (jobs : List CollectedJob) (status : RunStatus)
    (outcomes : Option (List SourceOutcome)) (db : Database)
    → (settled now c fence jobs status outcomes db).outbox ≡ db.outbox
unfolding settled
settled-outbox now c fence jobs status outcomes db = store_jobs-outbox now c jobs db

settle-outbox :
    (now : ℕ) (c : Command) (fence : ℕ) (jobs : List CollectedJob) (status : RunStatus)
    (outcomes : Option (List SourceOutcome)) (db : Database)
    → (settle now c fence jobs status outcomes db).1.outbox ≡ db.outbox
settle-outbox now c fence jobs status outcomes db =
    elim (settle_commits now c fence jobs status outcomes db) [
      | inl e ↦ ap (λ d. d.outbox) e
      | inr e ↦ ap (λ d. d.outbox) e ∙ settled-outbox now c fence jobs status outcomes db
    ]

pub claim-outbox : (now id s : ℕ) (db : Database) → (claim now id s db).1.outbox ≡ db.outbox
unfolding claim
claim-outbox now id s db = ground arith

start-outbox :
    (now : ℕ) (c : Command) (fence : ℕ) (db : Database)
    → (start_search now c fence db).1.outbox ≡ db.outbox
unfolding start_search started
start-outbox now c fence db = ground arith

cancel-outbox :
    (now owner id : ℕ) (db : Database) → (cancel_search now owner id db).1.outbox ≡ db.outbox
cancel-outbox now owner id db = elim (cancel_search_commits now owner id db) [
  | inl e ↦ ap (λ d. d.outbox) e
  | inr (o, _, e) ↦ ap (λ d. d.outbox) e ∙ (unfold cancelled in refl)
]

collect-outbox :
    (now : ℕ) (c : Command) (fence : ℕ) (jobs : List CollectedJob) (outcomes : List SourceOutcome)
    (db : Database)
    → (complete_collection now c fence jobs outcomes db).1.outbox ≡ db.outbox
collect-outbox now c fence jobs outcomes db =
    elim (complete_collection_commits now c fence jobs outcomes db) [
      | inl e ↦ ap (λ d. d.outbox) e
      | inr e ↦ ap (λ d. d.outbox) e ∙ settled-outbox now c fence jobs _ _ db
    ]

Kept-update :
    (k : ℕ) (q : OutboxRow → Bool) (f : OutboxRow → OutboxRow) (rows : List OutboxRow)
    → ((a : OutboxRow) → ((f a).id == k) ≡ (a.id == k))
    → ((a : OutboxRow) → (f a).command ≡ a.command)
    → Kept (find (λ o. o.id == k) rows) (find (λ o. o.id == k) (update q f rows))
Kept-update k q f rows same h =
    rw (find-update (λ o. o.id == k) q f rows same) (Kept-adjust q f (find (λ o. o.id == k) rows) h)

Kept-append :
    (k : ℕ) (rows added : List OutboxRow)
    → Kept (find (λ o. o.id == k) rows) (find (λ o. o.id == k) (rows ++ added))
Kept-append k rows added = rw (find-append (λ o. o.id == k) rows added) (Kept-or_else _ _)

published-Kept :
    (now id k : ℕ) (db : Database) → Kept (outbox_row k db) (outbox_row k (published now id db))
unfolding published outbox_row
published-Kept now id k db = Kept-update k _ _ db.outbox (λ o. refl) (λ o. refl)

pub fail-outbox :
    (now : ℕ) (c : Command) (fence : ℕ) (db : Database) → (fail now c fence db).1.outbox ≡ db.outbox
unfolding fail
fail-outbox now c fence db = settle-outbox now c fence [] RunStatus.failed none db

pub Kept-same :
    (k : ℕ) (db left : Database)
    → left.outbox ≡ db.outbox
    → Kept (outbox_row k db) (outbox_row k left)
unfolding outbox_row
Kept-same k db left e = rw e (Kept-refl _)

module _ (trim : Text → Text) (hash : Request → ℕ) where
  created-Kept :
      (f : Fresh) (owner : ℕ) (r : SearchRun) (k : ℕ) (db : Database)
      → Kept (outbox_row k db) (outbox_row k (created trim hash f owner r db))
  unfolding created outbox_row
  created-Kept f owner r k db = Kept-append k db.outbox _

  complete-outbox :
      (now : ℕ) (c : Command) (fence : ℕ) (jobs : List CollectedJob) (db : Database)
      → (complete now c fence jobs db).1.outbox ≡ db.outbox
  unfolding complete
  complete-outbox now c fence jobs db = settle-outbox now c fence jobs RunStatus.completed none db

  step-Kept :
      (now : ℕ) (call : Call) (k : ℕ) (db : Database)
      → Kept (outbox_row k db) (outbox_row k (step trim hash now call db))
  unfolding step
  step-Kept now (create f owner key input profiles resumes) k db =
      elim (create_search_commits trim hash f owner key input profiles resumes db) [
        | inl e ↦ rw e (Kept-refl _)
        | inr (r, e) ↦ rw e (created-Kept f owner _ k db)
      ]
  step-Kept now (cancel owner id) k db = Kept-same k db _ (cancel-outbox now owner id db)
  step-Kept now (claim_lease id s) k db = Kept-same k db _ (claim-outbox now id s db)
  step-Kept now (renew_lease id fence s) k db = Kept-same k db _ (unfold renew in refl)
  step-Kept now (release_lease id fence) k db = Kept-same k db _ (unfold release in refl)
  step-Kept now (mark_published id) k db = published-Kept now id k db
  step-Kept now (start c fence) k db = Kept-same k db _ (start-outbox now c fence db)
  step-Kept now (complete_search c fence jobs) k db =
      Kept-same k db _ (complete-outbox now c fence jobs db)
  step-Kept now (fail_search c fence) k db = Kept-same k db _ (fail-outbox now c fence db)
  step-Kept now (collect c fence jobs outcomes) k db =
      Kept-same k db _ (collect-outbox now c fence jobs outcomes db)

  pub after-Kept :
      (calls : List (ℕ × Call)) (k : ℕ) (db : Database)
      → Kept (outbox_row k db) (outbox_row k (after trim hash calls db))
  unfolding after
  after-Kept [] k db = Kept-refl _
  after-Kept ((now, call) ∷ calls) k db =
      Kept-trans _ (outbox_row k (step trim hash now call db)) _ (step-Kept now call k db)
        (after-Kept calls k (step trim hash now call db))
