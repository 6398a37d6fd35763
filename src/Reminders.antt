-- ===== src/Reminders.antt =====
-- packages/core/src/notifications.ts: reminders of interviews as in-app notifications. A round that
-- another publisher has locked is skipped: `is_free` tells which rounds are not.
use careerscope.Base.{
  none, some, true, false, [], ◌∷◌, ◌+◌, ◌++◌, inl, inr, refl, arith, ◌≡◌, zero, suc, ℕ, Bool, List,
  Option, any, ◌==◌, ◌&&◌, not, ltb, leb, keep, take, length, is_some, if◌then◌else◌,
}
use careerscope.Base.Table.{find, update, count, sort_by}
mod Published
mod Reached
mod Examples

pub record Round : Type 0 where
  pub id : ℕ
  pub owner_id : ℕ
  pub lead_id : ℕ
  pub is_scheduled : Bool
  pub starts_at : ℕ
  pub reminder_at : Option ℕ

pub record Notification : Type 0 where
  pub id : ℕ
  pub owner_id : ℕ
  pub round_id : ℕ
  pub reminder_at : ℕ
  pub created_at : ℕ
  pub read_at : Option ℕ
  pub retired_at : Option ℕ

pub record ReminderPreference : Type 0 where
  pub owner_id : ℕ
  pub is_enabled : Bool

pub record ReminderTables : Type 0 where
  pub rounds : List Round
  pub notifications : List Notification
  pub preferences : List ReminderPreference

abbrev pub is_of_round : ℕ → ℕ → Notification → Bool
is_of_round owner round n = n.owner_id == owner && n.round_id == round

-- The unique key of a notification.
abbrev pub is_key : ℕ → ℕ → ℕ → Notification → Bool
is_key owner round at n = is_of_round owner round n && n.reminder_at == at

abbrev pub reminds_at : Option ℕ → ℕ → Bool
reminds_at none at = false
reminds_at (some t) at = t == at

-- The round still is what the notification says.
abbrev pub is_current : ℕ → Notification → Round → Bool
is_current now n r =
    is_of_round r.owner_id r.id n
    && r.is_scheduled
    && ltb now r.starts_at
    && reminds_at r.reminder_at n.reminder_at

-- `interviewReminderPreference`
unfoldable pub interview_reminder_preference : ℕ → List ReminderPreference → Bool
interview_reminder_preference owner ps =
    elim (find (λ (p : ReminderPreference). p.owner_id == owner) ps) [
      | none ↦ true
      | some p ↦ p.is_enabled
    ]

-- `setInterviewReminderPreference`
unfoldable pub set_interview_reminder_preference :
    ℕ → Bool → List ReminderPreference → List ReminderPreference
set_interview_reminder_preference owner enabled ps =
    if any (λ (p : ReminderPreference). p.owner_id == owner) ps
    then update (λ (p : ReminderPreference). p.owner_id == owner)
        (λ p. record p { is_enabled = enabled }) ps
    else ps ++ record { owner_id = owner; is_enabled = enabled } ∷ []

-- The round has a notification that is not retired and that it no longer matches.
abbrev is_stale : ℕ → List Notification → Round → Bool
is_stale now ns r =
    any
      (λ (n : Notification).
        is_of_round r.owner_id r.id n && not (is_some n.retired_at) && not (is_current now n r))
      ns

abbrev is_outdated : ℕ → List Round → Round → Notification → Bool
is_outdated now rounds r n =
    is_of_round r.owner_id r.id n
    && not (is_some n.retired_at)
    && not (any (is_current now n) rounds)

-- The first loop: the notifications of each stale round.
unfoldable pub retire : ℕ → List Round → List Round → List Notification → List Notification
retire now rounds [] ns = ns
retire now rounds (r ∷ rs) ns =
    retire now rounds rs
      (update (is_outdated now rounds r) (λ n. record n { retired_at = some now }) ns)

abbrev pub is_due_round : ℕ → Round → Bool
is_due_round now r =
    r.is_scheduled
    && elim r.reminder_at [ none ↦ false | some t ↦ leb t now ]
    && ltb now r.starts_at

abbrev pub is_noted : List Notification → Round → Bool
is_noted ns r =
    any
      (λ (n : Notification).
        is_of_round r.owner_id r.id n && reminds_at r.reminder_at n.reminder_at)
      ns

abbrev pub reminder_time : Round → ℕ
reminder_time r = elim r.reminder_at [ none ↦ 0 | some t ↦ t ]

-- `INSERT … SELECT … ON CONFLICT (owner_id, round_id, reminder_at) DO NOTHING`, which reads the round
-- and the preference again; with the number of rows inserted.
unfoldable pub insert_reminder :
    (ℕ → ℕ) → ℕ → List ReminderPreference → Round → List Notification → ℕ × List Notification
unfolding interview_reminder_preference
insert_reminder draw now ps r ns =
    if is_due_round now r
      && interview_reminder_preference r.owner_id ps
      && not (any (is_key r.owner_id r.id (reminder_time r)) ns)
    then (
      1,
      ns
          ++ record {
            id = draw r.id;
            owner_id = r.owner_id;
            round_id = r.id;
            reminder_at = reminder_time r;
            created_at = now;
            read_at = none;
            retired_at = none;
          }
            ∷ [],
    )
    else (0, ns)

-- The loop over the due rounds.
unfoldable pub insert_reminders :
    (ℕ → ℕ) → ℕ → List ReminderPreference → List Round → List Notification → ℕ × List Notification
insert_reminders draw now ps [] ns = (0, ns)
insert_reminders draw now ps (r ∷ rs) ns =
    let (one, added) = insert_reminder draw now ps r ns in
    let (more, left) = insert_reminders draw now ps rs added in (one + more, left)

-- `ORDER BY round.id LIMIT 100 … SKIP LOCKED`
unfoldable pub stale_rounds : (Round → Bool) → ℕ → ReminderTables → List Round
stale_rounds is_free now t = take 100 (
    sort_by (λ (r : Round). r.id)
      (keep (λ (r : Round). is_stale now t.notifications r && is_free r) t.rounds))

-- `ORDER BY round.reminder_at, round.id LIMIT 100 … SKIP LOCKED`; `ns` are the notifications after the
-- first loop.
unfoldable pub due_rounds : (Round → Bool) → ℕ → List Notification → ReminderTables → List Round
unfolding interview_reminder_preference
due_rounds is_free now ns t = take 100 (
    sort_by reminder_time (
      sort_by (λ (r : Round). r.id)
        (keep
          (λ (r : Round).
            is_due_round now r
            && not (is_noted ns r)
            && interview_reminder_preference r.owner_id t.preferences
            && is_free r)
          t.rounds)))

-- `publishDueInterviewReminders`; `later` are the preferences once the owners' locks are held.
unfoldable pub publish_due :
    (ℕ → ℕ) → (Round → Bool) → ℕ → List ReminderPreference → ReminderTables → ℕ × ReminderTables
unfolding retire insert_reminders stale_rounds due_rounds
publish_due draw is_free now later t =
    let retired = retire now t.rounds (stale_rounds is_free now t) t.notifications in
    let result = insert_reminders draw now later (due_rounds is_free now retired t) retired in
    (result.0, record t { notifications = result.1; preferences = later })

-- `markRead`
unfoldable pub mark_read : ℕ → ℕ → ℕ → ReminderTables → Bool × ReminderTables
mark_read now owner id t =
    let is_readable = λ (n : Notification).
      n.owner_id == owner
      && n.id == id
      && not (is_some n.retired_at)
      && any (is_current now n) t.rounds in
    (
      any is_readable t.notifications,
      record t {
        notifications =
            update is_readable
              (λ n. record n { read_at = elim n.read_at [ none ↦ some now | some at ↦ some at ] })
              t.notifications;
      },
    )
