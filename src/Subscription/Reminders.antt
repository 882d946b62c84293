-- ===== src/Subscription/Reminders.antt =====
-- `RunRenewalReminders` and `GetSubscriptionsExpiringIn` of
-- internal/modules/billing/service/billing_service.go.
pub mod Once
use Prim.Native.String.{String}
use queuebuzz.Prelude.{
  ℕ, ◌+◌, ◌*◌, Bool, true, false, not, ◌&&◌, Option, none, some, List, [], ◌∷◌, is_some, get_or,
  leb, if◌then◌else◌,
}
use queuebuzz.Net.{ok, ◌>>=◌, ◌>>◌, pure, request, read, attempt, local}
use queuebuzz.Subscription.Domain.{Plan, Subscription, is_active, is_yearly, Mail, renewal_reminder}
use queuebuzz.Subscription.Plans.{get_plan_by_id, update_subscription, is_standing}
use queuebuzz.Subscription.Events.{get_host_email, send_mail}
use queuebuzz.Queue.World.{Backend, World, Call}

-- Milliseconds.
abbrev pub three_days : ℕ
three_days = 3 * 24 * 3600 * 1000

abbrev pub is_due : ℕ → Subscription → Bool
is_due now s =
    is_active s.status
    && is_standing s
    && not (is_some s.renewal_reminder_sent_at)
    && leb now s.current_period_end
    && leb s.current_period_end (now + three_days)

-- The update is filtered by `cancelled_at: nil`.
abbrev pub with_reminder : ℕ → Subscription → Subscription
with_reminder now s = if is_standing s then record s { renewal_reminder_sent_at = some now } else s

abbrev pub reminder : Subscription → Plan → ℕ → Mail
reminder s p to =
    renewal_reminder to (some p.name) s.current_period_end
      (if is_yearly s.billing_cycle then p.yearly_price else p.monthly_price) p.currency

module _ (B : Backend) where
  abbrev pub remind_of : Subscription → ℕ → Option Plan → Call B (Unit {0})
  remind_of s to none = pure tt
  remind_of s to (some p) = do
    send_mail B (some to) (reminder s p)
    attempt (update_subscription B s.host_id with_reminder)
    pure tt

  abbrev pub remind_to : Subscription → Option ℕ → Call B (Unit {0})
  remind_to s none = pure tt
  remind_to s (some to) = do p ← attempt (get_plan_by_id B s.plan_id); remind_of s to p

  unfoldable pub remind : Subscription → Call B (Unit {0})
  remind s = do to ← attempt (get_host_email B s.host_id); remind_to s (get_or to none)

  unfoldable pub remind_each : List Subscription → Call B (Unit {0})
  remind_each [] = pure tt
  remind_each (s ∷ ss) = do remind s; remind_each ss

  unfoldable pub run_renewal_reminders : Call B (Unit {0})
  run_renewal_reminders = do
    subs ← read (λ w. B.subscriptions.find (is_due w.now) w.subscriptions)
    remind_each subs
