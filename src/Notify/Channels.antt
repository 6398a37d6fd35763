-- ===== src/Notify/Channels.antt =====
-- packages/core/src/notification-delivery.ts, `notificationChannels`.
use careerscope.Base.{
  holds, ◌++◌, ◌||◌, ◌&&◌, not, ◌==◌, if◌then◌else◌, any, ℕ, Option, List, Bool, none, some, true,
  false, [], ◌∷◌, arith, ◌≡◌,
}

pub data NotificationChannel : Type 0 where
  in_app email web_push : NotificationChannel

-- `sign_in_otp` is no kind of the type; the function refuses it where a caller casts it.
pub data NotificationKind : Type 0 where
  security application interview marketing sign_in_otp : NotificationKind

abbrev kind_code : NotificationKind → ℕ
kind_code security = 0
kind_code application = 1
kind_code interview = 2
kind_code marketing = 3
kind_code sign_in_otp = 4

abbrev pub is_kind : NotificationKind → NotificationKind → Bool
is_kind a b = kind_code a == kind_code b

pub record Preferences : Type 0 where
  pub email : Bool
  pub web_push : Bool
  pub marketing_opt_in : Bool
  pub disabled_types : List NotificationKind

-- `none` is the thrown error.
unfoldable pub notification_channels :
    NotificationKind → Preferences → Option (List NotificationChannel)
notification_channels kind p =
    if is_kind kind sign_in_otp
    then none
    else if is_kind kind marketing && not p.marketing_opt_in
    then some []
    else if any (is_kind kind) p.disabled_types && not (is_kind kind security)
    then some []
    else some (
        NotificationChannel.in_app
          ∷ (if is_kind kind security || p.email then NotificationChannel.email ∷ [] else [])
        ++ (if p.web_push && not (is_kind kind security)
            then NotificationChannel.web_push ∷ []
            else []))

abbrev pub is_channel : NotificationChannel → NotificationChannel → Bool
is_channel in_app in_app = true
is_channel email email = true
is_channel web_push web_push = true
is_channel _ _ = false

abbrev pub reaches : NotificationChannel → Option (List NotificationChannel) → Bool
reaches c o = holds (any (is_channel c)) o

-- A security event goes to in-app and email, and nowhere else, whatever the preferences say.
pub notification_channels-security :
    (p : Preferences)
    → notification_channels security p
      ≡ some (NotificationChannel.in_app ∷ NotificationChannel.email ∷ [])
unfolding notification_channels
notification_channels-security p = ground arith

-- A kind that is neither security nor a sign-in code reaches in-app unless it is disabled, or is
-- marketing without an opt-in, and then reaches each of the two other channels exactly where that
-- channel is switched on.
pub notification_channels-reaches :
    (kind : NotificationKind) (p : Preferences)
    → is_kind kind security ≡ false
    → is_kind kind sign_in_otp ≡ false
    → (reaches NotificationChannel.in_app (notification_channels kind p) ≡ (
        not (any (is_kind kind) p.disabled_types)
        && (not (is_kind kind marketing) || p.marketing_opt_in)))
      × (reaches NotificationChannel.email (notification_channels kind p)
          ≡ (reaches NotificationChannel.in_app (notification_channels kind p) && p.email))
      × (reaches NotificationChannel.web_push (notification_channels kind p)
          ≡ (reaches NotificationChannel.in_app (notification_channels kind p) && p.web_push))
unfolding notification_channels
notification_channels-reaches kind p h k = ground arith
