-- ===== src/Notify/Outbox.antt =====
-- packages/core/src/notification-delivery.ts, `NotificationOutbox`: an event's deliveries, and one delivery
-- at a time with retries and dead letters.
use careerscope.Base.Table.{update, sort_by, find}
use careerscope.Base.{
  ◌-◌, ◌^◌, not, get_or, ◌++◌, ◌*◌, max, ltb, holds, any, ◌||◌, ◌==◌, ◌&&◌, if◌then◌else◌, min, map,
  leb, ℕ, Option, List, Bool, none, some, true, false, [], ◌∷◌, ◌+◌,
}
use careerscope.Notify.Channels.{
  NotificationChannel, NotificationKind, sign_in_otp, is_kind, is_channel,
}
pub mod Letters

pub data DeliveryStatus : Type 0 where
  pending sending delivered dead_letter : DeliveryStatus

abbrev is_pending : DeliveryStatus → Bool
is_pending pending = true
is_pending _ = false

abbrev is_sending : DeliveryStatus → Bool
is_sending sending = true
is_sending _ = false

abbrev pub is_dead : DeliveryStatus → Bool
is_dead dead_letter = true
is_dead _ = false

pub record EventRow : Type 0 where
  pub id : ℕ
  pub owner_id : ℕ
  pub kind : NotificationKind
  pub template : ℕ
  pub locale : ℕ

-- `claimed_at` is read in rows that are `sending` only.
pub record Delivery : Type 0 where
  pub event_id : ℕ
  pub channel : NotificationChannel
  pub status : DeliveryStatus
  pub attempts : ℕ
  pub available_at : ℕ
  pub claimed_at : Option ℕ

pub record DeadLetter : Type 0 where
  pub event_id : ℕ
  pub channel : NotificationChannel
  pub attempts : ℕ

pub record NotificationTables : Type 0 where
  pub events : List EventRow
  pub deliveries : List Delivery
  pub dead_letters : List DeadLetter

abbrev pub is_delivery : ℕ → NotificationChannel → Delivery → Bool
is_delivery id channel d = d.event_id == id && is_channel d.channel channel

abbrev pub is_letter : ℕ → NotificationChannel → DeadLetter → Bool
is_letter id channel d = d.event_id == id && is_channel d.channel channel

abbrev new_delivery : ℕ → ℕ → NotificationChannel → Delivery
new_delivery now id channel = record {
  event_id = id;
  channel = channel;
  status = pending;
  attempts = 0;
  available_at = now;
  claimed_at = none;
}

-- `INSERT … ON CONFLICT (event_id, channel) DO NOTHING`, for each channel; a channel that is named
-- twice, which `new Set` drops, is in conflict with itself.
unfoldable pub insert_deliveries : ℕ → ℕ → List NotificationChannel → List Delivery → List Delivery
insert_deliveries now id [] rows = rows
insert_deliveries now id (c ∷ cs) rows =
    insert_deliveries now id cs
      (if any (is_delivery id c) rows then rows else rows ++ new_delivery now id c ∷ [])

-- `enqueue` with the identifier it draws; `none` is the thrown error.
unfoldable pub enqueue :
    ℕ → EventRow → List NotificationChannel → NotificationTables → Option ℕ × NotificationTables
unfolding insert_deliveries
enqueue now event channels t = if is_kind event.kind sign_in_otp then (none, t) else (
  some event.id,
  record t {
    events = t.events ++ event ∷ [];
    deliveries = insert_deliveries now event.id channels t.deliveries;
  },
)

-- `status = 'sending' AND claimed_at < now() - interval '2 minutes'`.
abbrev is_stalled : ℕ → Delivery → Bool
is_stalled now d = is_sending d.status && holds (λ (at : ℕ). ltb (at + 120000) now) d.claimed_at

abbrev pub give_up_stalled : ℕ → Delivery → Delivery
give_up_stalled now d =
    if is_stalled now d && leb 5 d.attempts
    then record d { status = dead_letter; claimed_at = none }
    else d

abbrev pub letter_of : Delivery → DeadLetter
letter_of d = record { event_id = d.event_id; channel = d.channel; attempts = d.attempts }

unfoldable pub insert_letter : DeadLetter → List DeadLetter → List DeadLetter
insert_letter l rows = if any (is_letter l.event_id l.channel) rows then rows else rows ++ l ∷ []

-- `INSERT … SELECT … WHERE status = 'dead_letter' ON CONFLICT DO NOTHING`.
unfoldable pub bury : List Delivery → List DeadLetter → List DeadLetter
unfolding insert_letter
bury [] letters = letters
bury (d ∷ ds) letters =
    bury ds (if is_dead d.status then insert_letter (letter_of d) letters else letters)

unfoldable pub is_deliverable : ℕ → Bool → Delivery → Bool
is_deliverable now kill_email d =
    (is_pending d.status || (is_stalled now d && ltb d.attempts 5))
    && leb d.available_at now
    && (not kill_email || not (is_channel d.channel NotificationChannel.email))

abbrev pub sending_since : ℕ → Delivery → Delivery
sending_since now d = record d {
  status = sending;
  claimed_at = some now;
  attempts = d.attempts + 1;
}

-- `ORDER BY available_at, event_id LIMIT 1`.
unfoldable pub next_delivery : ℕ → Bool → List Delivery → Option Delivery
unfolding is_deliverable
next_delivery now kill_email rows =
    find (is_deliverable now kill_email)
      (sort_by (λ (d : Delivery). d.available_at) (sort_by (λ (d : Delivery). d.event_id) rows))

-- The end of the first transaction, for the row that it selects.
unfoldable pub claim_row :
    ℕ
    → List Delivery
    → List DeadLetter
    → NotificationTables
    → Option Delivery
    → Option Delivery × NotificationTables
claim_row now rows letters t none = (none, record t { deliveries = rows; dead_letters = letters })
claim_row now rows letters t (some d) = (
  some d,
  record t {
    deliveries = update (is_delivery d.event_id d.channel) (sending_since now) rows;
    dead_letters = letters;
  },
)

-- The first transaction of `deliverNext`: the row it claims, as it was before, and the tables after.
unfoldable pub claim_delivery : ℕ → Bool → NotificationTables → Option Delivery × NotificationTables
unfolding next_delivery bury claim_row
claim_delivery now kill_email t =
    let rows = map (give_up_stalled now) t.deliveries in
    claim_row now rows (bury rows t.dead_letters) t (next_delivery now kill_email rows)

-- `Math.min(5, Math.max(1, options.maxAttempts ?? 5))`
abbrev pub attempt_limit : Option ℕ → ℕ
attempt_limit o = min 5 (max 1 (get_or o 5))

-- `Math.min(60_000 * 2 ** Math.max(0, attempts - 1), 6 * 60 * 60_000)`
unfoldable pub retry_wait : ℕ → ℕ
retry_wait attempts = min (60000 * 2 ^ (attempts - 1)) 21600000

-- The second statement, after the transport has answered at the time `now`; `d` is the row claimed.
unfoldable pub finish_delivery :
    ℕ → Option ℕ → Option ℕ → Bool → Delivery → NotificationTables → NotificationTables
unfolding retry_wait insert_letter
finish_delivery now max_attempts base_delay sent d t =
    let attempts = d.attempts + 1 in
    let exhausted = leb (attempt_limit max_attempts) attempts in
    let wait = max (get_or base_delay 1000) (retry_wait attempts) in
    if sent
    then record t {
      deliveries =
          update (is_delivery d.event_id d.channel)
            (λ e. record e { status = delivered; claimed_at = none }) t.deliveries;
    }
    else record t {
      deliveries =
          update (is_delivery d.event_id d.channel)
            (λ e. record e {
              status = if exhausted then dead_letter else pending;
              claimed_at = none;
              available_at = now + wait;
            })
            t.deliveries;
      dead_letters =
          if exhausted
          then insert_letter (record (letter_of d) { attempts = attempts }) t.dead_letters
          else t.dead_letters;
    }

-- After the claim; `transports` answers whether the channel has a transport, the template exists, and
-- sending does not throw.
unfoldable pub send_claimed :
    (Delivery → Bool)
    → ℕ
    → Option ℕ
    → Option ℕ
    → Option Delivery × NotificationTables
    → Bool × NotificationTables
unfolding finish_delivery
send_claimed transports sent_at max_attempts base_delay (none, t) = (false, t)
send_claimed transports sent_at max_attempts base_delay (some d, t) =
    (true, finish_delivery sent_at max_attempts base_delay (transports d) d t)

-- `deliverNext`
unfoldable pub deliver_next :
    (Delivery → Bool)
    → ℕ
    → ℕ
    → Option ℕ
    → Option ℕ
    → Bool
    → NotificationTables
    → Bool × NotificationTables
unfolding claim_delivery send_claimed
deliver_next transports now sent_at max_attempts base_delay kill_email t =
    send_claimed transports sent_at max_attempts base_delay (claim_delivery now kill_email t)
