-- ===== src/Subscription/Standing.antt =====
-- What a subscription is worth to its host, and how the billing events of
-- internal/modules/billing/service/billing_service.go change that: the abstract view of a document.
use mathlib.Core.Option
use queuebuzz.Prelude.{ℕ, ◌≡◌, refl, false, Option, none, some, is_some, if◌then◌else◌, arith}
use queuebuzz.Calendar.{add_days}
use queuebuzz.Subscription.Domain.{Subscription, is_in_grace, is_canceled, EventType, BillingEvent}
use queuebuzz.Subscription.Changes.{keep_or, with_grace, paid, with_state, with_metadata, blank}
use queuebuzz.Subscription.Plans.{cancelled_now}

-- The plan is what the document names; a grace period has an end.
pub data Standing : Type 0 where
  nothing : Standing
  subscribed : Option ℕ → Standing
  grace : Option ℕ → ℕ → Standing
  ended : Option ℕ → Standing

abbrev pub view_of : Subscription → Standing
view_of s =
    if is_some s.cancelled_at
    then ended s.plan_id
    else if is_in_grace s.status
    then (elim s.grace_period_until [ none ↦ subscribed s.plan_id | some u ↦ grace s.plan_id u ])
    else subscribed s.plan_id

abbrev pub view : Option Subscription → Standing
view none = nothing
view (some s) = view_of s

-- A payment fails: what is subscribed has until then to be paid.
abbrev pub fail_standing : ℕ → Standing → Standing
fail_standing u nothing = nothing
fail_standing u (subscribed p) = grace p u
fail_standing u (grace p v) = grace p u
fail_standing u (ended p) = ended p

abbrev pub end_standing : Standing → Standing
end_standing nothing = nothing
end_standing (subscribed p) = ended p
end_standing (grace p u) = ended p
end_standing (ended p) = ended p

abbrev pub plan_or : Option ℕ → Standing → Option ℕ
plan_or i nothing = i
plan_or i (subscribed p) = p
plan_or i (grace p u) = p
plan_or i (ended p) = p

-- A first subscription gets the plan of the event, a later one keeps its plan.
abbrev pub start_standing : BillingEvent → Standing → Standing
start_standing e s =
    if is_canceled e.status then ended (plan_or e.plan_id s) else subscribed (plan_or e.plan_id s)

abbrev pub update_standing : BillingEvent → Standing → Standing
update_standing e nothing = nothing
update_standing e (subscribed p) =
    if is_some e.cancelled_at then ended (keep_or e.plan_id p) else subscribed (keep_or e.plan_id p)
update_standing e (grace p u) =
    if is_some e.cancelled_at then ended (keep_or e.plan_id p) else grace (keep_or e.plan_id p) u
update_standing e (ended p) = ended (keep_or e.plan_id p)

-- The specification of `ProcessBillingEvent`: `u` is the end of a grace period that starts now.
abbrev pub standing_after : ℕ → BillingEvent → EventType → Standing → Standing
standing_after u e EventType.payment_succeeded s = subscribed e.plan_id
standing_after u e EventType.payment_failed s = fail_standing u s
standing_after u e EventType.subscription_active s = start_standing e s
standing_after u e EventType.subscription_renewed s =
    if is_some e.previous_billing_date then start_standing e s else s
standing_after u e EventType.subscription_failed s = fail_standing u s
standing_after u e EventType.subscription_cancelled s = end_standing s
standing_after u e EventType.subscription_pending s = start_standing e s
standing_after u e EventType.subscription_updated s = update_standing e s
standing_after u e EventType.unknown s = s

-- What the updates of the handlers do to the view of a document.
pub view-with_grace :
    (days now : ℕ) (e : BillingEvent) (s : Subscription)
    → view_of (with_grace days e now s) ≡ fail_standing (add_days days now) (view_of s)
view-with_grace days now e s = ground arith

pub view-paid :
    (now : ℕ) (e : BillingEvent) (s : Subscription) → view_of (paid e now s) ≡ subscribed e.plan_id
view-paid now e s = refl

pub view-with_state :
    (now : ℕ) (e : BillingEvent) (s : Subscription)
    → is_in_grace e.status ≡ false
    → view_of (with_state e now s) ≡ start_standing e (view_of s)
view-with_state now e s h = ground arith

pub view-blank :
    (now h : ℕ) (e : BillingEvent)
    → is_in_grace e.status ≡ false
    → view_of (with_state e now (blank h e.plan_id now)) ≡ start_standing e nothing
view-blank now h e g = ground arith

pub view-with_metadata :
    (now : ℕ) (e : BillingEvent) (s : Subscription)
    → view_of (with_metadata e now s) ≡ update_standing e (view_of s)
view-with_metadata now e s = ground arith

pub view-cancelled_now :
    (now : ℕ) (s : Subscription) → view_of (cancelled_now now s) ≡ end_standing (view_of s)
view-cancelled_now now s = ground arith

pub view-map-cancelled_now :
    (now : ℕ) (o : Option Subscription)
    → view (Option.map (cancelled_now now) o) ≡ end_standing (view o)
view-map-cancelled_now now none = refl
view-map-cancelled_now now (some s) = view-cancelled_now now s
