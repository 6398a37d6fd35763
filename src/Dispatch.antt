-- ===== src/Dispatch.antt =====
-- packages/core/src/dispatch.ts: from the outbox to the queue (`publishPending`), one delivered message
-- under a lease (`consumeMessage`) and a dead letter (`reconcileDeadLetter`). The queue is seen
-- through the calls made to it; the heartbeat runs beside the handler, and its renewals are among
-- the calls that are made meanwhile.
use careerscope.Base.Table.{sort_by}
use careerscope.Commands.{retry_delay}
use careerscope.Search.Lease.{is_due, published, release, claim}
use careerscope.Search.Trace.{after, Call}
use careerscope.Base.{
  ◌/◌, keep, ◌||◌, ltb, take, not, max, leb, holds, ◌&&◌, if◌then◌else◌, all, get_or, List, ℕ,
  Option, Bool, none, some, true, false, [], ◌∷◌, ◌+◌, inl, inr, refl, arith, ◌≡◌, zero, suc,
}
use careerscope.Search.State.{
  command, command_eq, execution_status, OutboxRow, is_type, Request, Text, Result, ok, err,
  Command, CommandType, Database, ExecutionStatus,
}
pub mod Persistence
pub mod Publishing
pub mod Delivery
pub mod Redelivery
mod Examples

-- What `JSON.parse` and `commandSchema.parse` make of a message's body.
pub data Body : Type 0 where
  malformed : Body
  decoded : Command → Body

-- `receive_count` is `ApproximateReceiveCount`, `none` where it is absent or not a number.
pub record Message : Type 0 where
  pub receipt : Option ℕ
  pub body : Body
  pub receive_count : Option ℕ

pub data QueueCall : Type 0 where
  acknowledge : ℕ → QueueCall
  visibility : ℕ → ℕ → QueueCall

pub data Consumed : Type 0 where
  completed duplicate busy failed interrupted thrown : Consumed

-- What happens around one call of `consumeMessage`: the calls of the database by the handler, the
-- heartbeat and every other process while the handler runs, and what the other parties answer.
pub record Surroundings : Type 0 where
  pub is_aborted : Bool
  pub claimed_at : ℕ
  pub meanwhile : List (ℕ × Call)
  -- The handler's answer; false too where it throws.
  pub is_committed : Bool
  -- The queue still holds the receipt.
  pub is_held : Bool
  pub is_aborted_later : Bool
  pub is_heartbeat_failed : Bool
  pub settled_at : ℕ
  -- The heartbeat has failed by the time it is joined.
  pub is_lease_lost : Bool

abbrev pub is_finished_as : ExecutionStatus → Bool
is_finished_as ExecutionStatus.completed = true
is_finished_as _ = false

-- `Database.unpublished`; `routed` are the types that have a queue.
unfoldable pub unpublished : (CommandType → Bool) → ℕ → ℕ → Database → List OutboxRow
unpublished routed clock now db = take 20 (
    sort_by (λ (o : OutboxRow). o.created_at)
      (keep (λ (o : OutboxRow). routed o.command.kind && is_due clock now db o) db.outbox))

-- The loop of `publishPending`: what it answers (`none` where a send throws), what it sent, and the
-- database it leaves.
unfoldable pub publish_rows :
    (CommandType → Bool)
    → (Command → Bool)
    → ℕ
    → List OutboxRow
    → ℕ
    → Database
    → Option ℕ × List Command × Database
publish_rows routed sends clock [] n db = (some n, [], db)
publish_rows routed sends clock (o ∷ os) n db =
    let skipped = publish_rows routed sends clock os n db in
    let (answer, sent, left) =
      publish_rows routed sends clock os (n + 1) (published clock o.command.id db) in
    if not (routed o.command.kind)
    then skipped
    else if not (sends o.command)
    then (none, [], db)
    else (answer, o.command ∷ sent, left)

unfoldable pub publish_pending :
    (CommandType → Bool) → (Command → Bool) → ℕ → ℕ → Database → Option ℕ × List Command × Database
unfolding unpublished publish_rows
publish_pending routed sends clock now db =
    publish_rows routed sends clock (unpublished routed clock now db) 0 db

-- The message's command is of the worker's type and equal to the stored one.
unfoldable pub is_durable : CommandType → Command → Database → Bool
is_durable kind c db = is_type c.kind kind && holds (command_eq c) (command c.id db)

-- `trim` and `hash` are those of `create_search`, `jitter` is that of `retry_delay`, and `give_up`
-- is the argument `fail`, by default `Database.fail`.
module _ (trim : Text → Text) (hash : Request → ℕ) (jitter : ℕ → ℕ)
    (give_up : ℕ → Command → ℕ → Database → Result Bool × Database) where
  abbrev pub receive_count_of : Message → ℕ
  receive_count_of m = get_or m.receive_count 1

  -- `Math.max(1, Math.ceil(retryDelay(…) / 1000))`
  unfoldable pub backoff_seconds : ℕ → ℕ
  unfolding retry_delay
  backoff_seconds count =
      max 1 ((get_or (retry_delay jitter (if ltb 0 count then count else 1)) 0 + 999) / 1000)

  -- The `catch` block.
  unfoldable pub give_back :
      Surroundings → Message → ℕ → Command → ℕ → Database → List QueueCall × Database
  unfolding backoff_seconds release
  give_back w m receipt c fence db =
      let later = visibility receipt (backoff_seconds (receive_count_of m)) ∷ [] in
      if (leb 5 fence || leb 5 (receive_count_of m))
        && not w.is_aborted_later
        && not w.is_heartbeat_failed
      then (let (answer, left) = give_up w.settled_at c fence db in
          elim answer [ ok b ↦ (later, left) | err e ↦ ([], left) ])
      else (later, release w.settled_at c.id fence db)

  -- The `finally` block.
  abbrev pub after_heartbeat : Surroundings → Command → ℕ → Database → Database
  after_heartbeat w c fence db = if w.is_lease_lost then release w.settled_at c.id fence db else db

  -- From the handler's call to the end; `db` is the database after the claim.
  unfoldable pub consume_claimed :
      Surroundings → Message → ℕ → Command → ℕ → Database → Consumed × List QueueCall × Database
  unfolding give_back
  consume_claimed w m receipt c fence db =
      let handled = after trim hash w.meanwhile db in
      let (calls, left) = give_back w m receipt c fence handled in
      if w.is_committed && holds is_finished_as (execution_status c.id handled) && w.is_held
      then (Consumed.completed, acknowledge receipt ∷ [], after_heartbeat w c fence handled)
      else (Consumed.thrown, calls, after_heartbeat w c fence left)

  -- The command is claimed by somebody else, or finished.
  unfoldable pub consume_unclaimed :
      Surroundings → ℕ → Command → Database → Consumed × List QueueCall × Database
  consume_unclaimed w receipt c db = elim (execution_status c.id db) [
    | some ExecutionStatus.completed ↦
        if w.is_held
        then (Consumed.duplicate, acknowledge receipt ∷ [], db)
        else (Consumed.thrown, [], db)
    | some ExecutionStatus.failed ↦ (Consumed.failed, [], db)
    | _ ↦ (Consumed.busy, [], db)
  ]

  -- More than five claims: the command is given up.
  abbrev pub spent : Result Bool × Database → Consumed × List QueueCall × Database
  spent (ok b, left) = (Consumed.failed, [], left)
  spent (err e, left) = (Consumed.thrown, [], left)

  abbrev pub answered : Result Bool × Database → Option Bool × Database
  answered (ok b, left) = (some b, left)
  answered (err e, left) = (none, left)

  unfoldable pub consume_durable :
      Surroundings → Message → ℕ → Command → Database → Consumed × List QueueCall × Database
  unfolding consume_claimed consume_unclaimed
  consume_durable w m receipt c db =
      let left = (claim w.claimed_at c.id 60 db).1 in
      elim ((claim w.claimed_at c.id 60 db).0) [
        | none ↦ consume_unclaimed w receipt c left
        | some fence ↦
            if ltb 5 fence
            then spent (give_up w.claimed_at c fence left)
            else consume_claimed w m receipt c fence left
      ]

  unfoldable pub consume_message :
      CommandType → Surroundings → Message → Database → Consumed × List QueueCall × Database
  unfolding is_durable consume_durable
  consume_message kind w m db = elim (m.receipt) [
    | none ↦ (Consumed.thrown, [], db)
    | some receipt ↦ elim (m.body) [
      | malformed ↦ (Consumed.thrown, [], db)
      | decoded c ↦
          if not (is_durable kind c db)
          then (Consumed.thrown, [], db)
          else if w.is_aborted
          then (Consumed.interrupted, [], db)
          else consume_durable w m receipt c db
    ]
  ]

  -- `none` is a thrown error.
  unfoldable pub reconcile_dead_letter :
      CommandType → ℕ → Message → Database → Option Bool × Database
  unfolding is_durable
  reconcile_dead_letter kind now m db = elim (m.body) [
    | malformed ↦ (none, db)
    | decoded c ↦
        if not (is_durable kind c db)
        then (none, db)
        else (let (fence, left) = claim now c.id 60 db in
            elim fence [ none ↦ (some false, left) | some f ↦ answered (give_up now c f left) ])
  ]
