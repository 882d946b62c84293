-- ===== src/Subscription/Changes.antt =====
-- The documents that the billing events of internal/modules/billing/service/billing_service.go
-- write, and the updates of a subscription by each handler.

use queuebuzz.Prelude.{ℕ, Bool, true, false, ◌*◌, Option, none, some, get_or, if◌then◌else◌, ◌==◌}
use queuebuzz.Calendar.{add_month, add_year, add_days}
use queuebuzz.Subscription.Domain.{
  Plan, Subscription, active, in_grace, is_canceled, is_yearly, Transaction, succeeded, failed,
  FailureReason, BillingRecord, EventType, BillingEvent,
}
use queuebuzz.Queue.World.{Settings}

abbrev pub keep_or {ℓ} : {A : Type ℓ} → Option A → Option A → Option A
keep_or none old = old
keep_or (some a) old = some a

abbrev pub is_renewed : EventType → Bool
is_renewed EventType.subscription_renewed = true
is_renewed _ = false

abbrev pub starts_period : EventType → Bool
starts_period EventType.subscription_active = true
starts_period EventType.subscription_renewed = true
starts_period _ = false

-- `FailureReason: event.Type` of a failed payment
abbrev pub reason_of : EventType → FailureReason
reason_of EventType.payment_failed = FailureReason.payment_failed
reason_of EventType.subscription_failed = FailureReason.subscription_failed
reason_of _ = FailureReason.none

abbrev pub failed_transaction : ℕ → ℕ → ℕ → FailureReason → BillingEvent → Transaction
failed_transaction id now amount reason e = record {
  id = id;
  host_id = e.host_id;
  plan_id = e.plan_id;
  billing_cycle = e.billing_cycle;
  amount = amount;
  total_amount = 0;
  currency = e.currency;
  status = failed;
  provider_payment_id = e.provider_payment_id;
  failure_reason = reason;
  created_at = now;
}

abbrev pub succeeded_transaction : ℕ → ℕ → BillingEvent → Transaction
succeeded_transaction id now e = record (failed_transaction id now e.amount FailureReason.none e) {
  total_amount = e.total_amount;
  status = succeeded;
}

abbrev pub billing_record : ℕ → ℕ → ℕ → Option Plan → BillingEvent → BillingRecord
billing_record id tx now plan e = record {
  id = id;
  transaction_id = tx;
  host_id = e.host_id;
  plan_id = e.plan_id;
  plan_name = elim plan [ none ↦ "" | some p ↦ p.name ];
  billing_cycle = e.billing_cycle;
  amount = e.total_amount;
  currency = e.currency;
  billed_at = now;
}

abbrev pub default_grace_days : ℕ
default_grace_days = 3

abbrev pub grace_days : Option Settings → ℕ
grace_days none = default_grace_days
grace_days (some s) =
    if s.subscription_grace_days == 0 then default_grace_days else s.subscription_grace_days

-- A paid plan without a limit has a year.
abbrev pub paid_expiry_hours : Plan → ℕ
paid_expiry_hours plan = if plan.queue_expiry_hours == 0 then 24 * 365 else plan.queue_expiry_hours

-- The updates of a subscription by the handlers.
abbrev pub with_grace : ℕ → BillingEvent → ℕ → Subscription → Subscription
with_grace days e now s = record s {
  status = in_grace;
  grace_period_until = some (add_days days now);
  updated_at = now;
  card = keep_or e.card s.card;
}

abbrev pub period_end : BillingEvent → ℕ → ℕ
period_end e now =
    get_or e.current_period_end (if is_yearly e.billing_cycle then add_year now else add_month now)

abbrev pub paid : BillingEvent → ℕ → Subscription → Subscription
paid e now s = record s {
  plan_id = e.plan_id;
  status = active;
  provider_subscription_id = e.subscription_id;
  provider_customer_id = e.provider_customer_id;
  billing_cycle = e.billing_cycle;
  current_period_end = period_end e now;
  cancel_at_period_end = false;
  cancelled_at = none;
  renewal_reminder_sent_at = none;
  card = e.card;
  updated_at = now;
}

abbrev pub with_state : BillingEvent → ℕ → Subscription → Subscription
with_state e now s = record s {
  status = e.status;
  provider_subscription_id = e.provider_id;
  provider_customer_id = e.provider_customer_id;
  cancelled_at = if is_canceled e.status then some now else none;
  renewal_reminder_sent_at = none;
  updated_at = now;
  card = keep_or e.card s.card;
  current_period_end = get_or e.current_period_end s.current_period_end;
  billing_cycle = keep_or e.billing_cycle s.billing_cycle;
}

abbrev pub with_metadata : BillingEvent → ℕ → Subscription → Subscription
with_metadata e now s = record s {
  cancel_at_period_end = e.cancel_at_period_end;
  cancellation_comment = e.cancellation_comment;
  cancellation_feedback = e.cancellation_feedback;
  updated_at = now;
  plan_id = keep_or e.plan_id s.plan_id;
  billing_cycle = keep_or e.billing_cycle s.billing_cycle;
  card = keep_or e.card s.card;
  cancelled_at = keep_or e.cancelled_at s.cancelled_at;
  current_period_end = get_or e.current_period_end s.current_period_end;
}

-- The document that an upsert inserts, before the update: what is not set is empty.
abbrev pub blank : ℕ → Option ℕ → ℕ → Subscription
blank h plan now = record {
  host_id = h;
  plan_id = plan;
  status = active;
  provider_subscription_id = none;
  provider_customer_id = none;
  billing_cycle = none;
  grace_period_until = none;
  current_period_end = 0;
  cancel_at_period_end = false;
  cancellation_comment = none;
  cancellation_feedback = none;
  cancelled_at = none;
  card = none;
  renewal_reminder_sent_at = none;
  created_at = now;
  updated_at = now;
}
