-- ===== src/Subscription/Provider/Message.antt =====
-- The notices of the payment service that internal/modules/billing/provider/dodo.go knows, by what
-- they tell, and what each of them does to the standing of a host: a description of its own, which
-- reads the type and the data of a notice and nothing of the parser.
use queuebuzz.Prelude.{ℕ, Bool, Option, none, some, is_some, if◌then◌else◌}
use queuebuzz.Queue.Slug.{codes}
use queuebuzz.Subscription.Domain.{SubscriptionStatus}
use queuebuzz.Subscription.Standing.{
  Standing, nothing, subscribed, grace, ended, fail_standing, end_standing, plan_or,
}
use queuebuzz.Subscription.Provider.{Metadata, PaymentData, SubscriptionData, Notice}

pub data Message : Type 0 where
  paid unpaid : PaymentData → Message
  started renewed failed on_hold cancelled pending updated expired : SubscriptionData → Message

abbrev pub notice_of : Message → Notice
notice_of (Message.paid d) = record {
  type = codes "payment.succeeded";
  payment = some d;
  subscription = none;
}
notice_of (Message.unpaid d) = record {
  type = codes "payment.failed";
  payment = some d;
  subscription = none;
}
notice_of (Message.started d) = record {
  type = codes "subscription.active";
  payment = none;
  subscription = some d;
}
notice_of (Message.renewed d) = record {
  type = codes "subscription.renewed";
  payment = none;
  subscription = some d;
}
notice_of (Message.failed d) = record {
  type = codes "subscription.failed";
  payment = none;
  subscription = some d;
}
notice_of (Message.on_hold d) = record {
  type = codes "subscription.on_hold";
  payment = none;
  subscription = some d;
}
notice_of (Message.cancelled d) = record {
  type = codes "subscription.cancelled";
  payment = none;
  subscription = some d;
}
notice_of (Message.pending d) = record {
  type = codes "subscription.pending";
  payment = none;
  subscription = some d;
}
notice_of (Message.updated d) = record {
  type = codes "subscription.updated";
  payment = none;
  subscription = some d;
}
notice_of (Message.expired d) = record {
  type = codes "subscription.expired";
  payment = none;
  subscription = some d;
}

-- The host and the plan that the checkout has left with the payment service.
abbrev pub host_named : Option Metadata → Option ℕ
host_named none = none
host_named (some m) = m.host_id

abbrev pub plan_named : Option Metadata → Option ℕ
plan_named none = none
plan_named (some m) = m.plan_id

abbrev pub metadata_of : Message → Option Metadata
metadata_of (Message.paid d) = d.metadata
metadata_of (Message.unpaid d) = d.metadata
metadata_of (Message.started d) = d.metadata
metadata_of (Message.renewed d) = d.metadata
metadata_of (Message.failed d) = d.metadata
metadata_of (Message.on_hold d) = d.metadata
metadata_of (Message.cancelled d) = d.metadata
metadata_of (Message.pending d) = d.metadata
metadata_of (Message.updated d) = d.metadata
metadata_of (Message.expired d) = d.metadata

-- A subscription that starts with a status keeps the plan it has, and has ended if it is canceled.
abbrev pub start_told : Option SubscriptionStatus → Option ℕ → Standing → Standing
start_told (some SubscriptionStatus.canceled) named s = ended (plan_or named s)
start_told _ named s = subscribed (plan_or named s)

abbrev pub named_or : Option ℕ → Option ℕ → Option ℕ
named_or none p = p
named_or (some i) p = some i

-- An update brings the plan that it names, and the end if it tells a time of cancellation.
abbrev pub update_told : Bool → Option ℕ → Standing → Standing
update_told over named nothing = nothing
update_told over named (subscribed p) =
    if over then ended (named_or named p) else subscribed (named_or named p)
update_told over named (grace p u) =
    if over then ended (named_or named p) else grace (named_or named p) u
update_told over named (ended p) = ended (named_or named p)

-- What a message makes of a standing; `u` is the end of a grace period that starts now.
abbrev pub standing_told : ℕ → Message → Standing → Standing
standing_told u (Message.paid d) s = subscribed (plan_named d.metadata)
standing_told u (Message.unpaid d) s = fail_standing u s
standing_told u (Message.started d) s = start_told d.status (plan_named d.metadata) s
standing_told u (Message.renewed d) s =
    if is_some d.previous_billing_date then subscribed (plan_or (plan_named d.metadata) s) else s
standing_told u (Message.failed d) s = fail_standing u s
standing_told u (Message.on_hold d) s = fail_standing u s
standing_told u (Message.cancelled d) s = end_standing s
standing_told u (Message.pending d) s = start_told d.status (plan_named d.metadata) s
standing_told u (Message.updated d) s =
    update_told (is_some d.cancelled_at) (plan_named d.metadata) s
standing_told u (Message.expired d) s = end_standing s
