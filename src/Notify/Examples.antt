-- ===== src/Notify/Examples.antt =====
-- Concrete runs of the theorems on packages/core/src/notification-delivery.ts.
use careerscope.Notify.Outbox.Letters.{deliver_next-Accounted, Accounted}
use careerscope.Base.{
  none, some, true, false, [], ◌∷◌, ◌+◌, ◌*◌, ◌/◌, ◌%◌, refl, arith, ◌≡◌, ◌≢◌, ◌<◌, ◌≤◌, ℕ, ◌&&◌,
}
use careerscope.Notify.Channels.{
  NotificationChannel, marketing, interview, Preferences, reaches, notification_channels,
  notification_channels-reaches,
}
use careerscope.Notify.Quiet.{
  unresolved, is_quiet, quiet_hours_defer, quiet_hours_defer-ends, quiet_hours_defer-resolved,
  find_end,
}
use careerscope.Notify.Outbox.{Delivery, DeliveryStatus, NotificationTables, deliver_next}

abbrev sample_preferences : Preferences
sample_preferences = record {
  email = true;
  web_push = false;
  marketing_opt_in = false;
  disabled_types = marketing ∷ [];
}

notification_channels-reaches_example :
    (reaches NotificationChannel.in_app (notification_channels interview sample_preferences) ≡ true)
    × (reaches NotificationChannel.email (notification_channels interview sample_preferences) ≡ (
        reaches NotificationChannel.in_app (notification_channels interview sample_preferences)
        && true))
    × (reaches NotificationChannel.web_push (notification_channels interview sample_preferences) ≡ (
        reaches NotificationChannel.in_app (notification_channels interview sample_preferences)
        && false))
notification_channels-reaches_example =
    notification_channels-reaches interview sample_preferences refl refl

-- UTC.
abbrev utc_minute : ℕ → ℕ
utc_minute t = t / 60000 % 1440

-- At 23:58, with quiet hours from 22:00 to 00:01.
quiet_hours_defer-ends_example :
    (k : ℕ) × (86460000 ≡ 86280000 + 60000 * k)
    × (0 < k)
    × (k ≤ 1560)
    × (is_quiet 1320 1 (utc_minute 86280000) ≡ true)
    × (is_quiet 1320 1 (utc_minute 86460000) ≡ false)
unfolding quiet_hours_defer find_end
quiet_hours_defer-ends_example = quiet_hours_defer-ends utc_minute 86280000 1320 1 86460000 refl

quiet_hours_defer-resolved_example :
    quiet_hours_defer utc_minute 86280000 (some 1320) (some 1) ≢ unresolved
quiet_hours_defer-resolved_example =
    quiet_hours_defer-resolved utc_minute 86280000 1320 1 (λ t. omega arith) (omega arith)
      (omega arith) (omega arith)

abbrev stalled_delivery : Delivery
stalled_delivery = record {
  event_id = 2;
  channel = NotificationChannel.email;
  status = DeliveryStatus.sending;
  attempts = 5;
  available_at = 1000;
  claimed_at = some 1000;
}

abbrev fresh_delivery : Delivery
fresh_delivery = record {
  event_id = 3;
  channel = NotificationChannel.in_app;
  status = DeliveryStatus.pending;
  attempts = 0;
  available_at = 1000;
  claimed_at = none;
}

abbrev sample_tables : NotificationTables
sample_tables = record {
  events = [];
  deliveries = stalled_delivery ∷ fresh_delivery ∷ [];
  dead_letters = [];
}

deliver_next-Accounted_example :
    Accounted (deliver_next (λ d. false) 200000 200500 (some 1) none false sample_tables).1
deliver_next-Accounted_example =
    deliver_next-Accounted (λ d. false) 200000 200500 (some 1) none false sample_tables
