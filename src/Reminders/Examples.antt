-- ===== src/Reminders/Examples.antt =====
-- A concrete run of the theorem on packages/core/src/notifications.ts.
use careerscope.Reminders.Reached.{publish_due-reaches}
use careerscope.Base.Table.{find, sort_by}
use careerscope.Base.{refl, arith, any, ◌≡◌, some, true, [], ◌∷◌}
use careerscope.Reminders.{
  interview_reminder_preference, is_key, retire, stale_rounds, publish_due, Round, ReminderTables,
}

abbrev sample_round : Round
sample_round = record {
  id = 5;
  owner_id = 7;
  lead_id = 2;
  is_scheduled = true;
  starts_at = 9000;
  reminder_at = some 4000;
}

abbrev sample_tables : ReminderTables
sample_tables = record { rounds = sample_round ∷ []; notifications = []; preferences = [] }

publish_due-reaches_example :
    any (is_key 7 5 4000) (publish_due (λ n. n) (λ r. true) 5000 [] sample_tables).1.notifications
    ≡ true
unfolding interview_reminder_preference find retire stale_rounds sort_by
publish_due-reaches_example =
    publish_due-reaches 5000 7 5 4000 (λ n. n) (λ r. true) [] sample_tables (omega arith) refl refl
      refl
