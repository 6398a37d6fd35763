-- ===== src/Search/Ownership.antt =====
-- packages/core/src/database.ts, `claim`, `renew` and `settle`: who may settle a command.
use careerscope.Search.Settle.{settled_as, settled, owns, settle}
use careerscope.Search.Lease.{live_for, renew, take_over, seconds, first_claim, is_expired, claim}
use careerscope.Search.State.{
  ok, SourceOutcome, RunStatus, CollectedJob, Command, is_running, outbox_row, OutboxRow, execution,
  Execution, Database,
}
use careerscope.Base.{
  ==_iff, Option, List, ◌<◌, Bool-cases, ◌∙◌, inr, refl, [], ◌∷◌, ◌==◌, inl, Option-cases, ◌+◌,
  ◌++◌, true, false, arith, some, none, ◌≡◌, ℕ,
}
use careerscope.Base.Table.{find-holds, find-update, find-append, update, find}

-- The lease that a successful claim leaves behind.
pub record Grants (until id fence : ℕ) (db : Database) : Type 0 where
  pub row : Execution
  pub stored : execution id db ≡ some row
  pub fenced : row.fence ≡ fence
  pub runs : is_running row.status ≡ true
  pub leased : row.lease_until ≡ until

module _ (now id s : ℕ) (db : Database) where
  claim_first :
      (o : OutboxRow)
      → outbox_row id db ≡ some o
      → execution id db ≡ none
      → claim now id s db ≡ (
        some 1,
        record db { executions = db.executions ++ first_claim id (now + seconds s) ∷ [] },
      )
  unfolding claim
  claim_first o h k = ground arith

  pub claim_again :
      (o : OutboxRow) (e : Execution)
      → outbox_row id db ≡ some o
      → execution id db ≡ some e
      → is_expired now id e ≡ true
      → claim now id s db ≡ (
        some (e.fence + 1),
        record db {
          executions = update (is_expired now id) (take_over (now + seconds s)) db.executions;
        },
      )
  unfolding claim
  claim_again o e h k t = rw (h, claim) (rw k (rw t refl))

  pub claim_refused :
      (e : Execution)
      → execution id db ≡ some e
      → is_expired now id e ≡ false
      → claim now id s db ≡ (none, db)
  unfolding claim
  claim_refused e k t = ground arith

  pub claim_unknown : outbox_row id db ≡ none → claim now id s db ≡ (none, db)
  unfolding claim
  claim_unknown h = ground arith

  claim-Grants_first :
      execution id db ≡ none
      → Grants
          (now + seconds s)
          id
          1
          (record db { executions = db.executions ++ first_claim id (now + seconds s) ∷ [] })
  unfolding execution
  claim-Grants_first k = record {
    row = first_claim id (now + seconds s);
    stored =
        find-append (λ e. e.id == id) db.executions (first_claim id (now + seconds s) ∷ [])
        ∙ rw k (unfold find in ground arith);
    fenced = refl;
    runs = refl;
    leased = refl;
  }

  claim-Grants_again :
      (e : Execution)
      → execution id db ≡ some e
      → is_expired now id e ≡ true
      → Grants (now + seconds s) id (e.fence + 1) (record db {
        executions = update (is_expired now id) (take_over (now + seconds s)) db.executions;
      })
  unfolding execution
  claim-Grants_again e k t = record {
    row = take_over (now + seconds s) e;
    stored =
        find-update (λ x. x.id == id) (is_expired now id) (take_over (now + seconds s))
          db.executions (λ x. refl)
        ∙ rw k (rw t refl);
    fenced = refl;
    runs = refl;
    leased = refl;
  }

  pub claim-Grants :
      (f : ℕ) → (claim now id s db).0 ≡ some f → Grants (now + seconds s) id f (claim now id s db).1
  claim-Grants f h = elim (Option-cases (outbox_row id db)) [
    | inl e ↦ cc (claim_unknown e)
    | inr (o, e) ↦ elim (Option-cases (execution id db)) [
      | inl k ↦
          let p : 1 ≡ f = ground (arith, claim_first o e k) in
          rw (claim_first o e k, ← p) (claim-Grants_first k)
      | inr (x, k) ↦ elim (Bool-cases (is_expired now id x)) [
        | inl t ↦
            let p : x.fence + 1 ≡ f = ground (arith, claim_again o x e k t) in
            rw (claim_again o x e k t, ← p) (claim-Grants_again x k t)
        | inr t ↦ cc (claim_refused x k t)
      ]
    ]
  ]

-- A claim of a command that has an execution takes an expired lease over with the next fence.
pub claim_takes_over :
    (now id s : ℕ) (db : Database) (e : Execution) (g : ℕ)
    → execution id db ≡ some e
    → (claim now id s db).0 ≡ some g
    → (g ≡ e.fence + 1) × (e.lease_until < now) × (is_running e.status ≡ true)
unfolding claim
claim_takes_over now id s db e g h k = ground arith

pub renew_holds :
    (now id fence s : ℕ) (db : Database) (e : Execution)
    → execution id db ≡ some e
    → (renew now id fence s db).0 ≡ true
    → (e.fence ≡ fence) × (is_running e.status ≡ true) × (now < e.lease_until)
unfolding renew
renew_holds now id fence s db e h k = ground arith

-- What a settlement that is committed finds.
pub record Settles (now : ℕ) (c : Command) (fence : ℕ) (db : Database) : Type 0 where
  pub row : Execution
  pub stored : execution c.id db ≡ some row
  pub fenced : row.fence ≡ fence
  pub runs : is_running row.status ≡ true
  pub leased : now < row.lease_until

settled_as-stopped :
    (outcomes : Option (List SourceOutcome)) (status : RunStatus)
    → is_running (settled_as outcomes status) ≡ false
settled_as-stopped none status = ground arith
settled_as-stopped (some os) status = refl

pub found-id : (id : ℕ) (db : Database) (e : Execution) → execution id db ≡ some e → e.id ≡ id
unfolding execution
found-id id db e h = (==_iff e.id id).0 (find-holds (λ x. x.id == id) db.executions e h)

Settles-live :
    (now : ℕ) (c : Command) (fence : ℕ) (db : Database) (x : Settles now c fence db)
    → live_for now c.id fence x.row ≡ true
Settles-live now c fence db x =
    ground (arith, found-id c.id db x.row x.stored, x.fenced, x.runs, x.leased)

module _ (now : ℕ) (c : Command) (fence : ℕ) (jobs : List CollectedJob) (status : RunStatus)
    (outcomes : Option (List SourceOutcome)) (db : Database)
    (done : (settle now c fence jobs status outcomes db).0 ≡ ok true) where
  settle_owns : owns now c fence db ≡ true
  unfolding settle
  settle_owns = ground arith

  pub settle_Settles : Settles now c fence db
  settle_Settles = elim (Option-cases (execution c.id db)) [
    | inl e ↦ cc (rw e at settle_owns)
    | inr (x, e) ↦ record {
      row = x;
      stored = e;
      fenced = ground (arith, settle_owns);
      runs = ground (arith, settle_owns);
      leased = ground (arith, settle_owns);
    }
  ]

  settle-eq :
      (settle now c fence jobs status outcomes db).1 ≡ settled now c fence jobs status outcomes db
  unfolding settle
  settle-eq = ground arith

  settled-execution :
      (x : Settles now c fence db)
      → execution c.id (settled now c fence jobs status outcomes db)
        ≡ some (record (x.row) { status = settled_as outcomes status })
  unfolding settled execution
  settled-execution x =
      find-update (λ e. e.id == c.id) (live_for now c.id fence)
        (λ e. record e { status = settled_as outcomes status }) db.executions (λ e. refl)
      ∙ rw x.stored (rw (Settles-live now c fence db x) refl)

  -- After it the execution is finished.
  pub settle_finishes :
      (e : Execution) × (execution c.id (settle now c fence jobs status outcomes db).1 ≡ some e)
      × (is_running e.status ≡ false)
  settle_finishes =
      let x = settle_Settles in
      (
        record (x.row) { status = settled_as outcomes status },
        rw settle-eq (settled-execution x),
        settled_as-stopped outcomes status,
      )
