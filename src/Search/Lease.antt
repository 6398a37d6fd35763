-- ===== src/Search/Lease.antt =====
-- database.ts: the outbox and the fenced leases on commands. `now` is the transaction's time. `id` is
-- a primary key, so a statement `UPDATE … WHERE id = $1 AND …` returns a row exactly when the row of
-- that id satisfies the rest of the condition.
use careerscope.Base.{
  ℕ, ◌+◌, ◌*◌, Bool, true, not, ◌&&◌, ◌||◌, Option, none, some, [], ◌∷◌, ◌++◌, ltb, ◌==◌,
  if◌then◌else◌, any, holds,
}
use careerscope.Base.Table.{update}
use careerscope.Search.State.{
  Command, command_eq, is_running, Execution, ExecutionStatus, OutboxRow, Database, execution,
  outbox_row,
}

abbrev pub seconds : ℕ → ℕ
seconds s = s * 1000

-- `id = $1 AND fence = $2 AND status = 'running'`.
abbrev pub held_by : ℕ → ℕ → Execution → Bool
held_by id fence e = e.id == id && e.fence == fence && is_running e.status

-- The same with `lease_until > now()`.
abbrev pub live_for : ℕ → ℕ → ℕ → Execution → Bool
live_for now id fence e = held_by id fence e && ltb now e.lease_until

abbrev extend : ℕ → Execution → Execution
extend until e = record e { lease_until = until }

-- Takes an expired lease over: the next fence, one more attempt.
abbrev pub take_over : ℕ → Execution → Execution
take_over until e = record e {
  fence = e.fence + 1;
  attempts = e.attempts + 1;
  status = ExecutionStatus.running;
  lease_until = until;
}

abbrev pub first_claim : ℕ → ℕ → Execution
first_claim id until = record {
  id = id;
  status = ExecutionStatus.running;
  fence = 1;
  attempts = 1;
  lease_until = until;
}

-- `status = 'running' AND lease_until < now()`.
abbrev pub is_expired : ℕ → ℕ → Execution → Bool
is_expired now id e = e.id == id && is_running e.status && ltb e.lease_until now

-- `INSERT … SELECT … FROM outbox_events ON CONFLICT (id) DO UPDATE … WHERE … RETURNING fence`.
unfoldable pub claim : ℕ → ℕ → ℕ → Database → Option ℕ × Database
claim now id lease_seconds db =
    let until = now + seconds lease_seconds in
    elim (outbox_row id db) [
      | none ↦ (none, db)
      | some o ↦ elim (execution id db) [
        | none ↦ (some 1, record db { executions = db.executions ++ first_claim id until ∷ [] })
        | some e ↦
            if is_expired now id e
            then (
              some (e.fence + 1),
              record db { executions = update (is_expired now id) (take_over until) db.executions },
            )
            else (none, db)
      ]
    ]

unfoldable pub renew : ℕ → ℕ → ℕ → ℕ → Database → Bool × Database
renew now id fence lease_seconds db = (
  holds (live_for now id fence) (execution id db),
  record db {
    executions =
        update (live_for now id fence) (extend (now + seconds lease_seconds)) db.executions;
  },
)

unfoldable pub release : ℕ → ℕ → ℕ → Database → Database
release now id fence db = record db {
  executions = update (held_by id fence) (extend now) db.executions;
}

-- `published` marks an outbox row as sent.
unfoldable pub published : ℕ → ℕ → Database → Database
published now id db = record db {
  outbox = update (λ o. o.id == id) (λ o. record o { published_at = some now }) db.outbox;
}

-- `EXISTS (SELECT 1 FROM outbox_events WHERE id = $1 AND command = $3::jsonb)`.
abbrev pub is_stored : Command → Database → Bool
is_stored c db = holds (λ (o : OutboxRow). command_eq o.command c) (outbox_row c.id db)

-- An execution that is finished or still leased keeps its outbox row from being sent again.
abbrev is_settled_or_leased : ℕ → ℕ → Execution → Bool
is_settled_or_leased now id e = e.id == id && (not (is_running e.status) || ltb now e.lease_until)

-- Never published, or published more than two minutes ago and neither finished nor leased.
-- `clock` is the process's clock, by which the two minutes are counted.
unfoldable pub is_due : ℕ → ℕ → Database → OutboxRow → Bool
is_due clock now db o = elim o.published_at [
  | none ↦ true
  | some at ↦ ltb (at + 120000) clock && not (any (is_settled_or_leased now o.id) db.executions)
]
