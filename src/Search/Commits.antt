-- ===== src/Search/Commits.antt =====
-- packages/core/src/database.ts: the outcomes of each transaction.
use careerscope.Base.{
  ℕ, ◌+◌, ◌≡◌, ◌⊎◌, Option, none, some, List, [], ◌∷◌, ◌++◌, arith, inl, inr, Option-cases,
}
use careerscope.Base.Table.{find, update}
use careerscope.Search.State.{
  Command, Text, Request, RunStatus, SourceOutcome, CollectedJob, Database, OutboxRow,
}
use careerscope.Commands.{RequestInput, parse_request}
use careerscope.Search.Lease.{claim, seconds, first_claim, take_over, is_expired}
use careerscope.Search.Settle.{started, start_search, settled, settle}
use careerscope.Search.Cancel.{cancel_search, cancelled, is_command_of}
use careerscope.Search.Collection.{complete_collection, collection_status}
use careerscope.Search.Create.{ProfileRow, ResumeResult, Fresh, new_run, create_search, created}

pub claim_commits :
    (now id s : ℕ) (db : Database)
    → ((claim now id s db).1 ≡ db)
      ⊎ ((claim now id s db).1
          ≡ record db { executions = db.executions ++ first_claim id (now + seconds s) ∷ [] })
      ⊎ ((claim now id s db).1 ≡ record db {
        executions = update (is_expired now id) (take_over (now + seconds s)) db.executions;
      })
unfolding claim
claim_commits now id s db = ground arith

pub settle_commits :
    (now : ℕ) (c : Command) (fence : ℕ) (jobs : List CollectedJob) (status : RunStatus)
    (outcomes : Option (List SourceOutcome)) (db : Database)
    → ((settle now c fence jobs status outcomes db).1 ≡ db)
      ⊎ ((settle now c fence jobs status outcomes db).1
          ≡ settled now c fence jobs status outcomes db)
unfolding settle
settle_commits now c fence jobs status outcomes db = ground arith

pub complete_collection_commits :
    (now : ℕ) (c : Command) (fence : ℕ) (jobs : List CollectedJob) (outcomes : List SourceOutcome)
    (db : Database)
    → ((complete_collection now c fence jobs outcomes db).1 ≡ db)
      ⊎ ((complete_collection now c fence jobs outcomes db).1
          ≡ settled now c fence jobs (collection_status jobs outcomes) (some outcomes) db)
unfolding complete_collection
complete_collection_commits now c fence jobs outcomes db = ground arith

pub start_search_commits :
    (now : ℕ) (c : Command) (fence : ℕ) (db : Database)
    → ((start_search now c fence db).1 ≡ db) ⊎ ((start_search now c fence db).1 ≡ started c db)
unfolding start_search
start_search_commits now c fence db = ground arith

module _ (now owner id : ℕ) (db : Database) where
  cancel_search_commits_at :
      (o : OutboxRow)
      → find (is_command_of owner id) db.outbox ≡ some o
      → ((cancel_search now owner id db).1 ≡ db)
        ⊎ ((cancel_search now owner id db).1 ≡ cancelled now owner id o.id db)
  unfolding cancel_search
  cancel_search_commits_at o h = ground arith

  cancel_search_commits_none :
      find (is_command_of owner id) db.outbox ≡ none → (cancel_search now owner id db).1 ≡ db
  unfolding cancel_search
  cancel_search_commits_none h = ground arith

  pub cancel_search_commits :
      ((cancel_search now owner id db).1 ≡ db)
      ⊎ ((o : OutboxRow) × (find (is_command_of owner id) db.outbox ≡ some o)
          × ((cancel_search now owner id db).1 ≡ cancelled now owner id o.id db))
  cancel_search_commits = elim (Option-cases (find (is_command_of owner id) db.outbox)) [
    | inl e ↦ inl (cancel_search_commits_none e)
    | inr (o, e) ↦ elim (cancel_search_commits_at o e) [ inl k ↦ inl k | inr m ↦ inr (o, e, m) ]
  ]

module _ (trim : Text → Text) (hash : Request → ℕ) (f : Fresh) (owner key : ℕ)
    (input : RequestInput) (profiles : List ProfileRow) (resumes : List ResumeResult)
    (db : Database) where
  create_search_commits_at :
      (request : Request)
      → parse_request trim input ≡ some request
      → ((create_search trim hash f owner key input profiles resumes db).1 ≡ db)
        ⊎ ((create_search trim hash f owner key input profiles resumes db).1
            ≡ created trim hash f owner (new_run trim hash f owner key request profiles resumes) db)
  unfolding create_search
  create_search_commits_at request h = ground arith

  create_search_commits_none :
      parse_request trim input ≡ none
      → (create_search trim hash f owner key input profiles resumes db).1 ≡ db
  unfolding create_search
  create_search_commits_none h = rw (h, create_search)

  pub create_search_commits :
      ((create_search trim hash f owner key input profiles resumes db).1 ≡ db)
      ⊎ ((request : Request) × ((create_search trim hash f owner key input profiles resumes db).1
            ≡ created trim hash f owner
                (new_run trim hash f owner key request profiles resumes)
                db))
  create_search_commits = elim (Option-cases (parse_request trim input)) [
    | inl e ↦ inl (create_search_commits_none e)
    | inr (request, e) ↦ elim (create_search_commits_at request e) [
      | inl k ↦ inl k
      | inr m ↦ inr (request, m)
    ]
  ]
