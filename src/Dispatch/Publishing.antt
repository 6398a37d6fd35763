-- ===== src/Dispatch/Publishing.antt =====
-- packages/core/src/dispatch.ts, `publishPending`: which rows are marked as sent.
use careerscope.Base.{
  some, false, [], ◌∷◌, ◌+◌, ◌∙◌, inl, inr, refl, arith, ◌≡◌, suc, ℕ, Bool, List, any, ◌==◌, length,
  Bool-cases,
}
use careerscope.Base.Table.{find, update}
use careerscope.Search.State.{Command, CommandType, Database, OutboxRow, outbox_row}
use careerscope.Search.Lease.{published}
use careerscope.Dispatch.{publish_rows, publish_pending, unpublished}

abbrev pub is_sent : ℕ → List Command → Bool
is_sent id sent = any (λ (c : Command). c.id == id) sent

find-update_other :
    (id k : ℕ) (at : ℕ) (rows : List OutboxRow)
    → (k == id) ≡ false
    → find
        (λ o. o.id == id)
        (update (λ o. o.id == k) (λ o. record o { published_at = some at }) rows)
      ≡ find (λ o. o.id == id) rows
unfolding find update
find-update_other id k at [] h = refl
find-update_other id k at (o ∷ os) h = ground (arith, find-update_other id k at os h, h)

published-other :
    (id k at : ℕ) (db : Database)
    → (k == id) ≡ false
    → outbox_row id (published at k db) ≡ outbox_row id db
unfolding published outbox_row
published-other id k at db h = find-update_other id k at db.outbox h

one_more : (n m k : ℕ) → k ≡ n + 1 + m → k ≡ n + suc m
one_more n m k h = omega (arith, h)

from_zero : (m k : ℕ) → k ≡ 0 + m → k ≡ m
from_zero m k h = omega (arith, h)

not_any :
    (id : ℕ) (sent : List Command) (o : OutboxRow)
    → is_sent id (o.command ∷ sent) ≡ false
    → ((o.command.id == id) ≡ false) × (is_sent id sent ≡ false)
not_any id sent o h = ground (arith, h)

module _ (routed : CommandType → Bool) (sends : Command → Bool) (clock : ℕ) where
  publish_rows-marks :
      (os : List OutboxRow) (n : ℕ) (db : Database) (id : ℕ)
      → is_sent id (publish_rows routed sends clock os n db).1 ≡ false
      → outbox_row id (publish_rows routed sends clock os n db).2 ≡ outbox_row id db
  unfolding publish_rows
  publish_rows-marks [] n db id h = refl
  publish_rows-marks (o ∷ os) n db id h = elim (Bool-cases (routed o.command.kind)) [
    | inr r ↦ rw r (publish_rows-marks os n db id (rw r at h))
    | inl r ↦ elim (Bool-cases (sends o.command)) [
      | inr s ↦ rw (r, s) refl
      | inl s ↦
          rw (r, s)
            (publish_rows-marks os (n + 1) (published clock o.command.id db) id
                (not_any id _ o (rw (r, s) at h)).1
              ∙ published-other id o.command.id clock db (not_any id _ o (rw (r, s) at h)).0)
    ]
  ]

  publish_rows-counts :
      (os : List OutboxRow) (n : ℕ) (db : Database) (k : ℕ)
      → (publish_rows routed sends clock os n db).0 ≡ some k
      → k ≡ n + length (publish_rows routed sends clock os n db).1
  unfolding publish_rows
  publish_rows-counts [] n db k h = ground (arith, h)
  publish_rows-counts (o ∷ os) n db k h = elim (Bool-cases (routed o.command.kind)) [
    | inr r ↦ rw r (publish_rows-counts os n db k (rw r at h))
    | inl r ↦ elim (Bool-cases (sends o.command)) [
      | inr s ↦ cc (rw (r, s) at h)
      | inl s ↦
          let rest =
            publish_rows-counts os (n + 1) (published clock o.command.id db) k (rw (r, s) at h) in
          rw (r, s) (one_more n _ k rest)
    ]
  ]

  -- An outbox row stays as it is unless its command was sent, also where a later send throws.
  pub publish_pending-marks :
      (now : ℕ) (db : Database) (id : ℕ)
      → is_sent id (publish_pending routed sends clock now db).1 ≡ false
      → outbox_row id (publish_pending routed sends clock now db).2 ≡ outbox_row id db
  unfolding publish_pending
  publish_pending-marks now db id h = publish_rows-marks (unpublished routed clock now db) 0 db id h

  -- Where no send throws, the answer is the number of commands sent.
  pub publish_pending-counts :
      (now : ℕ) (db : Database) (k : ℕ)
      → (publish_pending routed sends clock now db).0 ≡ some k
      → k ≡ length (publish_pending routed sends clock now db).1
  unfolding publish_pending
  publish_pending-counts now db k h =
      from_zero _ k (publish_rows-counts (unpublished routed clock now db) 0 db k h)
