-- ===== src/Dispatch/Redelivery.antt =====
-- packages/core/src/dispatch.ts, `consumeMessage`: what a later delivery of a message does.
use careerscope.Search.Trace.{Call, after}
use careerscope.Search.Lease.{release, claim}
use careerscope.Search.Fences.{after-Advances}
use careerscope.Dispatch.Persistence.{Kept-same, claim-outbox, after-Kept}
use careerscope.Base.{
  [], ◌∷◌, ◌∙◌, ◌≢◌, sym, List, ltb, ◌&&◌, Bool-cases, ap, Option-cases, holds, ℕ, Bool, some, true,
  false, [], inl, inr, refl, arith, ◌≡◌, ◌∙◌,
}
use careerscope.Search.State.{
  command_eq_iff, Request, Text, Result, ok, err, Command, CommandType, Database, execution_status,
  command, outbox_row,
}
use careerscope.Dispatch.{
  spent, is_durable, consume_message, consume_durable, after_heartbeat, is_finished_as,
  consume_unclaimed, consume_claimed, decoded, Message, acknowledge, Consumed, Surroundings,
}
use careerscope.Dispatch.Delivery.{
  is_finished_as-eq, durable_claimed, heartbeat-Completed, durable_spent, Completed-Advances,
  durable_unclaimed, consume_message-cases, Stored-Kept, Completed-refuses, Completed, Stored,
}

module _ (trim : Text → Text) (hash : Request → ℕ) (jitter : ℕ → ℕ)
    (give_up : ℕ → Command → ℕ → Database → Result Bool × Database) where
  heartbeat-Stored :
      (w : Surroundings) (c : Command) (fence : ℕ) (db : Database)
      → Stored c db
      → Stored c (after_heartbeat trim hash jitter give_up w c fence db)
  unfolding release command outbox_row
  heartbeat-Stored w c fence db h = elim (Bool-cases w.is_lease_lost) [
    | inl e ↦ rw e h
    | inr e ↦ rw e h
  ]

  consume_claimed-Stored :
      (w : Surroundings) (m : Message) (receipt : ℕ) (c : Command) (fence : ℕ) (db : Database)
      → Stored c db
      → (consume_claimed trim hash jitter give_up w m receipt c fence db).0 ≡ Consumed.completed
      → Completed c.id (consume_claimed trim hash jitter give_up w m receipt c fence db).2
        × Stored c (consume_claimed trim hash jitter give_up w m receipt c fence db).2
  unfolding consume_claimed
  consume_claimed-Stored w m receipt c fence db s h =
      let handled = after trim hash w.meanwhile db in
      let kept = Stored-Kept c db handled s (after-Kept trim hash w.meanwhile c.id db) in
      elim (Bool-cases
        (w.is_committed && holds is_finished_as (execution_status c.id handled) && w.is_held)) [
          | inl e ↦ rw e (
            heartbeat-Completed trim hash jitter give_up w c fence handled
                (is_finished_as-eq _ (ground (arith, e))),
            heartbeat-Stored w c fence handled kept,
          )
          | inr e ↦ cc (rw e at h)
        ]

  claim-Stored :
      (now s : ℕ) (c : Command) (db : Database) → Stored c db → Stored c (claim now c.id s db).1
  claim-Stored now s c db h =
      Stored-Kept c db _ h (Kept-same c.id db _ (claim-outbox now c.id s db))

  durable-Stored :
      (kind : CommandType) (c : Command) (db : Database) → is_durable kind c db ≡ true → Stored c db
  unfolding is_durable
  durable-Stored kind c db h = elim (Option-cases (command c.id db)) [
    | inl e ↦ ground (arith, e, h)
    | inr (x, e) ↦ e ∙ ap some (sym ((command_eq_iff c x).0 (ground (arith, e, h))))
  ]

  durable_of :
      (kind : CommandType) (c : Command) (db left : Database)
      → is_durable kind c db ≡ true
      → Stored c left
      → is_durable kind c left ≡ true
  unfolding is_durable
  durable_of kind c db left h s = rw s (ground (arith, h, (command_eq_iff c c).1 refl))

  unclaimed_reply :
      (w : Surroundings) (receipt : ℕ) (c : Command) (db : Database)
      → (consume_unclaimed trim hash jitter give_up w receipt c db).0 ≢ Consumed.completed
  unfolding consume_unclaimed
  unclaimed_reply w receipt c db h = ground arith

  consume_durable-Stored :
      (w : Surroundings) (m : Message) (receipt : ℕ) (c : Command) (db : Database)
      → Stored c db
      → (consume_durable trim hash jitter give_up w m receipt c db).0 ≡ Consumed.completed
      → Completed c.id (consume_durable trim hash jitter give_up w m receipt c db).2
        × Stored c (consume_durable trim hash jitter give_up w m receipt c db).2
  consume_durable-Stored w m receipt c db s h =
      elim (Option-cases (claim w.claimed_at c.id 60 db).0) [
        | inl e ↦ absurd (
            unclaimed_reply w receipt c (claim w.claimed_at c.id 60 db).1
              (rw (durable_unclaimed trim hash jitter give_up w m receipt c db e) at h))
        | inr (f, e) ↦ elim (Bool-cases (ltb 5 f)) [
          | inl l ↦ absurd (
              not_spent _ (rw (durable_spent trim hash jitter give_up w m receipt c db f e l) at h))
          | inr l ↦
              let p = durable_claimed trim hash jitter give_up w m receipt c db f e l in
              rw p (
                consume_claimed-Stored w m receipt c f (claim w.claimed_at c.id 60 db).1
                  (claim-Stored w.claimed_at 60 c db s) (rw p at h))
        ]
      ]
    where
      not_spent :
          (r : Result Bool × Database)
          → (spent trim hash jitter give_up r).0 ≡ Consumed.completed
          → ⊥
      not_spent (ok b, left) k = ground arith
      not_spent (err e, left) k = ground arith

  duplicate_of :
      (w : Surroundings) (receipt : ℕ) (c : Command) (db : Database)
      → Completed c.id db
      → w.is_held ≡ true
      → consume_unclaimed trim hash jitter give_up w receipt c db
        ≡ (Consumed.duplicate, acknowledge receipt ∷ [], db)
  unfolding consume_unclaimed
  duplicate_of w receipt c db h k = ground (arith, h, k)

  redelivered_at :
      (kind : CommandType) (w : Surroundings) (m : Message) (receipt : ℕ) (c : Command)
      (db left : Database)
      → m.receipt ≡ some receipt
      → m.body ≡ decoded c
      → w.is_aborted ≡ false
      → w.is_held ≡ true
      → is_durable kind c db ≡ true
      → Stored c left
      → Completed c.id left
      → consume_message trim hash jitter give_up kind w m left
        ≡ (Consumed.duplicate, acknowledge receipt ∷ [], left)
  unfolding consume_message consume_unclaimed
  redelivered_at kind w m receipt c db left e f a b d s k =
      let p = Completed-refuses c.id left w.claimed_at 60 k in
      rw
        (
          e,
          f,
          durable_of kind c db left d s,
          a,
          durable_unclaimed trim hash jitter give_up w m receipt c left (ap (λ i. i.0) p),
          p,
        )
        (duplicate_of w receipt c left k b)

  -- A message whose processing was answered completed is harmless when it is delivered again: after
  -- any further calls of the database, a worker that is not shutting down and holds the new receipt
  -- answers duplicate, acknowledges it, and leaves the database as it is.
  pub consume_message_again :
      (kind : CommandType) (w : Surroundings) (m : Message) (db : Database)
      (calls : List (ℕ × Call)) (later : Surroundings) (again : Message) (receipt : ℕ)
      → (consume_message trim hash jitter give_up kind w m db).0 ≡ Consumed.completed
      → again.body ≡ m.body
      → again.receipt ≡ some receipt
      → later.is_aborted ≡ false
      → later.is_held ≡ true
      → let left = after trim hash calls (consume_message trim hash jitter give_up kind w m db).2 in
        consume_message trim hash jitter give_up kind later again left
        ≡ (Consumed.duplicate, acknowledge receipt ∷ [], left)
  consume_message_again kind w m db calls later again receipt h body held a b =
      elim (consume_message-cases trim hash jitter give_up kind w m db) [
        | inl (inl e) ↦ cc (rw e at h)
        | inl (inr e) ↦ cc (rw e at h)
        | inr (r, c, e, f, d, k) ↦
            let x = consume_durable-Stored w m r c db (durable-Stored kind c db d) (rw k at h) in
            let mid = (consume_durable trim hash jitter give_up w m r c db).2 in
            rw k (
              redelivered_at kind later again receipt c db (after trim hash calls mid) held
                (body ∙ f) a b d (Stored-Kept c mid _ x.1 (after-Kept trim hash calls c.id mid))
                (Completed-Advances c.id mid _ x.0 (after-Advances trim hash calls c.id mid)))
      ]
