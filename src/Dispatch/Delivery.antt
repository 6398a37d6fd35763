-- ===== src/Dispatch/Delivery.antt =====
-- packages/core/src/dispatch.ts, `consumeMessage`: when a message is acknowledged.
use careerscope.Search.Trace.{after}
use careerscope.Search.Ownership.{claim_refused}
use careerscope.Search.Lease.{claim}
use careerscope.Search.Fences.{release-Advances, Advances}
use careerscope.Dispatch.Persistence.{Kept}
use careerscope.Base.{
  [], ◌∙◌, ltb, ◌⊎◌, ◌&&◌, Bool-cases, ap, any, Option-cases, holds, ℕ, Option, Bool, none, some,
  true, false, [], inl, inr, refl, arith, ◌≡◌, ◌∙◌,
}
use careerscope.Search.State.{
  OutboxRow, Request, Execution, Text, Result, ok, err, Command, CommandType, Database,
  ExecutionStatus, execution, execution_status, command, outbox_row,
}
use careerscope.Dispatch.{
  spent, is_durable, consume_message, consume_durable, give_back, after_heartbeat, is_finished_as,
  consume_unclaimed, consume_claimed, Body, malformed, decoded, Message, QueueCall, acknowledge,
  Consumed, Surroundings,
}

abbrev is_acknowledge : QueueCall → Bool
is_acknowledge (acknowledge r) = true
is_acknowledge _ = false

-- The execution of the command is completed in the database.
abbrev pub Completed : ℕ → Database → Type 0
Completed id db = execution_status id db ≡ some ExecutionStatus.completed

-- The stored command is the given one.
abbrev pub Stored : Command → Database → Type 0
Stored c db = command c.id db ≡ some c

pub is_finished_as-eq :
    (o : Option ExecutionStatus)
    → holds is_finished_as o ≡ true
    → o ≡ some ExecutionStatus.completed
is_finished_as-eq o h = ground arith

Completed-found :
    (id : ℕ) (db : Database)
    → Completed id db
    → (e : Execution) × (execution id db ≡ some e) × (e.status ≡ ExecutionStatus.completed)
unfolding execution_status
Completed-found id db h = elim (Option-cases (execution id db)) [
  | inl e ↦ ground arith
  | inr (x, e) ↦ (x, e, ground arith)
]

Completed-of :
    (id : ℕ) (db : Database) (e : Execution)
    → execution id db ≡ some e
    → e.status ≡ ExecutionStatus.completed
    → Completed id db
unfolding execution_status
Completed-of id db e h k = ground arith

-- A finished execution stays so where an advance leads.
pub Completed-Advances :
    (id : ℕ) (db left : Database)
    → Completed id db
    → Advances (execution id db) (execution id left)
    → Completed id left
Completed-Advances id db left h a =
    let (e, stored, status) = Completed-found id db h in
    elim (Option-cases (execution id left)) [
      | inl k ↦ absurd (rw (stored, k) at a)
      | inr (x, k) ↦
          let b = rw (stored, k) at a in
          Completed-of id left x k (ap (λ i. i.status) (b.1 (rw status refl)) ∙ status)
    ]

pub Completed-refuses :
    (id : ℕ) (db : Database) (now s : ℕ) → Completed id db → claim now id s db ≡ (none, db)
Completed-refuses id db now s h =
    let (e, stored, status) = Completed-found id db h in
    claim_refused now id s db e stored (ground arith)

pub Stored-Kept :
    (c : Command) (db left : Database)
    → Stored c db
    → Kept (outbox_row c.id db) (outbox_row c.id left)
    → Stored c left
unfolding command
Stored-Kept c db left h k = elim (Option-cases (outbox_row c.id db)) [
  | inl e ↦ ground arith
  | inr (x, e) ↦ elim (Option-cases (outbox_row c.id left)) [
    | inl f ↦ absurd (rw (e, f) at k)
    | inr (y, f) ↦ kept x y e f (rw (e, f) at k)
  ]
]
  where
    kept :
        (x y : OutboxRow)
        → outbox_row c.id db ≡ some x
        → outbox_row c.id left ≡ some y
        → y.command ≡ x.command
        → Stored c left
    kept x y e f same = ground (arith, e, f, same, h)

module _ (trim : Text → Text) (hash : Request → ℕ) (jitter : ℕ → ℕ)
    (give_up : ℕ → Command → ℕ → Database → Result Bool × Database) where
  give_back-none :
      (w : Surroundings) (m : Message) (receipt : ℕ) (c : Command) (fence : ℕ) (db : Database)
      → any is_acknowledge (give_back trim hash jitter give_up w m receipt c fence db).0 ≡ false
  unfolding give_back
  give_back-none w m receipt c fence db = ground arith

  pub heartbeat-Completed :
      (w : Surroundings) (c : Command) (fence : ℕ) (db : Database)
      → Completed c.id db
      → Completed c.id (after_heartbeat trim hash jitter give_up w c fence db)
  heartbeat-Completed w c fence db h = elim (Bool-cases w.is_lease_lost) [
    | inl e ↦
        rw e (Completed-Advances c.id db _ h (release-Advances w.settled_at c.id fence c.id db))
    | inr e ↦ rw e h
  ]

  consume_claimed-completed :
      (w : Surroundings) (m : Message) (receipt : ℕ) (c : Command) (fence : ℕ) (db : Database)
      → any is_acknowledge (consume_claimed trim hash jitter give_up w m receipt c fence db).1
        ≡ true
      → ((consume_claimed trim hash jitter give_up w m receipt c fence db).0 ≡ Consumed.completed)
        × Completed c.id (consume_claimed trim hash jitter give_up w m receipt c fence db).2
  unfolding consume_claimed
  consume_claimed-completed w m receipt c fence db h =
      let handled = after trim hash w.meanwhile db in
      elim (Bool-cases
        (w.is_committed && holds is_finished_as (execution_status c.id handled) && w.is_held)) [
          | inl e ↦ rw e (
            refl,
            heartbeat-Completed w c fence handled (is_finished_as-eq _ (ground (arith, e))),
          )
          | inr e ↦ absurd (not_both _ (rw e at h) (give_back-none w m receipt c fence handled))
        ]
    where
      not_both : (b : Bool) → b ≡ true → b ≡ false → ⊥
      not_both b h k = ground arith

  consume_unclaimed-duplicate :
      (w : Surroundings) (receipt : ℕ) (c : Command) (db : Database)
      → any is_acknowledge (consume_unclaimed trim hash jitter give_up w receipt c db).1 ≡ true
      → ((consume_unclaimed trim hash jitter give_up w receipt c db).0 ≡ Consumed.duplicate)
        × Completed c.id (consume_unclaimed trim hash jitter give_up w receipt c db).2
  unfolding consume_unclaimed
  consume_unclaimed-duplicate w receipt c db h = ground arith

  pub durable_unclaimed :
      (w : Surroundings) (m : Message) (receipt : ℕ) (c : Command) (db : Database)
      → (claim w.claimed_at c.id 60 db).0 ≡ none
      → consume_durable trim hash jitter give_up w m receipt c db
        ≡ consume_unclaimed trim hash jitter give_up w receipt c (claim w.claimed_at c.id 60 db).1
  unfolding consume_durable
  durable_unclaimed w m receipt c db e = rw (consume_durable, e) refl

  pub durable_spent :
      (w : Surroundings) (m : Message) (receipt : ℕ) (c : Command) (db : Database) (f : ℕ)
      → (claim w.claimed_at c.id 60 db).0 ≡ some f
      → ltb 5 f ≡ true
      → consume_durable trim hash jitter give_up w m receipt c db
        ≡ spent trim hash jitter give_up
            (give_up w.claimed_at c f (claim w.claimed_at c.id 60 db).1)
  unfolding consume_durable
  durable_spent w m receipt c db f e l = rw (consume_durable, e, l) refl

  pub durable_claimed :
      (w : Surroundings) (m : Message) (receipt : ℕ) (c : Command) (db : Database) (f : ℕ)
      → (claim w.claimed_at c.id 60 db).0 ≡ some f
      → ltb 5 f ≡ false
      → consume_durable trim hash jitter give_up w m receipt c db
        ≡ consume_claimed trim hash jitter give_up w m receipt c f (claim w.claimed_at c.id 60 db).1
  unfolding consume_durable
  durable_claimed w m receipt c db f e l = rw (consume_durable, e, l) refl

  spent-none :
      (r : Result Bool × Database)
      → any is_acknowledge (spent trim hash jitter give_up r).1 ≡ true
      → ⊥
  spent-none (ok b, left) k = ground arith
  spent-none (err e, left) k = ground arith

  consume_durable-acknowledges :
      (w : Surroundings) (m : Message) (receipt : ℕ) (c : Command) (db : Database)
      → any is_acknowledge (consume_durable trim hash jitter give_up w m receipt c db).1 ≡ true
      → (((consume_durable trim hash jitter give_up w m receipt c db).0 ≡ Consumed.completed)
          ⊎ ((consume_durable trim hash jitter give_up w m receipt c db).0 ≡ Consumed.duplicate))
        × Completed c.id (consume_durable trim hash jitter give_up w m receipt c db).2
  consume_durable-acknowledges w m receipt c db h =
      elim (Option-cases (claim w.claimed_at c.id 60 db).0) [
        | inl e ↦
            let p = durable_unclaimed w m receipt c db e in
            let k =
              consume_unclaimed-duplicate w receipt c (claim w.claimed_at c.id 60 db).1
                (rw p at h) in
            rw p (inr k.0, k.1)
        | inr (f, e) ↦ elim (Bool-cases (ltb 5 f)) [
          | inl l ↦ absurd (spent-none _ (rw (durable_spent w m receipt c db f e l) at h))
          | inr l ↦
              let p = durable_claimed w m receipt c db f e l in
              let k =
                consume_claimed-completed w m receipt c f (claim w.claimed_at c.id 60 db).1
                  (rw p at h) in
              rw p (inl k.0, k.1)
        ]
      ]

  -- The cases of a message.
  pub consume_message-cases :
      (kind : CommandType) (w : Surroundings) (m : Message) (db : Database)
      → ((consume_message trim hash jitter give_up kind w m db ≡ (Consumed.thrown, [], db))
          ⊎ (consume_message trim hash jitter give_up kind w m db ≡ (Consumed.interrupted, [], db)))
        ⊎ ((receipt : ℕ) × (c : Command) × (m.receipt ≡ some receipt)
            × (m.body ≡ decoded c)
            × (is_durable kind c db ≡ true)
            × (consume_message trim hash jitter give_up kind w m db
                ≡ consume_durable trim hash jitter give_up w m receipt c db))
  unfolding consume_message
  consume_message-cases kind w m db = elim (Option-cases m.receipt) [
    | inl e ↦ inl (inl (rw e refl))
    | inr (r, e) ↦ elim (Body-cases m.body) [
      | inl f ↦ inl (inl (rw (e, f) refl))
      | inr (c, f) ↦ elim (Bool-cases (is_durable kind c db)) [
        | inr d ↦ inl (inl (rw (e, f, d) refl))
        | inl d ↦ elim (Bool-cases w.is_aborted) [
          | inl a ↦ inl (inr (rw (e, f, d, a) refl))
          | inr a ↦ inr (r, c, e, f, d, rw (e, f, d, a) refl)
        ]
      ]
    ]
  ]
    where
      Body-cases : (b : Body) → (b ≡ malformed) ⊎ ((c : Command) × (b ≡ decoded c))
      Body-cases malformed = inl refl
      Body-cases (decoded c) = inr (c, refl)

  -- A message is acknowledged only where it is a stored command of the worker's type whose execution
  -- the call leaves completed, and the call then answers completed or duplicate.
  pub consume_message-acknowledges :
      (kind : CommandType) (w : Surroundings) (m : Message) (db : Database)
      → any is_acknowledge (consume_message trim hash jitter give_up kind w m db).1 ≡ true
      → (c : Command) × (m.body ≡ decoded c)
        × (is_durable kind c db ≡ true)
        × (((consume_message trim hash jitter give_up kind w m db).0 ≡ Consumed.completed)
            ⊎ ((consume_message trim hash jitter give_up kind w m db).0 ≡ Consumed.duplicate))
        × Completed c.id (consume_message trim hash jitter give_up kind w m db).2
  consume_message-acknowledges kind w m db h = elim (consume_message-cases kind w m db) [
    | inl (inl e) ↦ absurd (none_called Consumed.thrown db (rw e at h))
    | inl (inr e) ↦ absurd (none_called Consumed.interrupted db (rw e at h))
    | inr (r, c, e, f, d, k) ↦
        let x = consume_durable-acknowledges w m r c db (rw k at h) in (c, f, d, rw k x.0, rw k x.1)
  ]
    where
      none_called : (o : Consumed) (left : Database) → any is_acknowledge [] ≡ true → ⊥
      none_called o left k = ground arith
