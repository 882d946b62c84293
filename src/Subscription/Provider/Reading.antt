-- ===== src/Subscription/Provider/Reading.antt =====
-- internal/modules/billing/provider/dodo.go: what the program makes of a notice of each known type.

use queuebuzz.Prelude.{
  ℕ, ◌≡◌, refl, sym, ap, is_some, false, Option, none, some, get_or, if◌then◌else◌,
}
use queuebuzz.Queue.Slug.{codes}
use queuebuzz.Subscription.Domain.{SubscriptionStatus, active, is_canceled, Card, BillingEvent}
use queuebuzz.Subscription.Changes.{keep_or}
use queuebuzz.Subscription.Standing.{
  Standing, nothing, subscribed, grace, ended, plan_or, update_standing, standing_after,
}
use queuebuzz.Subscription.Webhook.{event}
use queuebuzz.Subscription.Provider.{
  Metadata, no_status, with_host, parse_payment_event, parse_subscription_event, is_payment_event,
  is_subscription_event, verify_webhook, of_metadata,
}
use queuebuzz.Subscription.Provider.Message.{
  Message, notice_of, host_named, plan_named, metadata_of, start_told, named_or, update_told,
  standing_told,
}

-- What the program reads from a message of each kind: an event of the host, which does what the
-- message tells.
pub record Reads (m : Message) (details : Option (Option Card)) (h u : ℕ) : Type 0 where
  pub made : BillingEvent
  pub read : verify_webhook (some (notice_of m)) details ≡ event made
  pub host : made.host_id ≡ h
  pub does : (s : Standing) → standing_after u made made.type s ≡ standing_told u m s

of_metadata-host_named : (m : Option Metadata) → of_metadata (λ d. d.host_id) m ≡ host_named m
of_metadata-host_named none = refl
of_metadata-host_named (some d) = refl

of_metadata-plan_named : (m : Option Metadata) → of_metadata (λ d. d.plan_id) m ≡ plan_named m
of_metadata-plan_named none = refl
of_metadata-plan_named (some d) = refl

start-start_told :
    (given : Option SubscriptionStatus) (first : SubscriptionStatus) (named : Option ℕ)
    (s : Standing)
    → is_canceled first ≡ false
    → (if is_canceled (get_or given first)
        then ended (plan_or named s)
        else subscribed (plan_or named s))
      ≡ start_told given named s
start-start_told none first named s h = rw h refl
start-start_told (some SubscriptionStatus.active) first named s h = refl
start-start_told (some SubscriptionStatus.past_due) first named s h = refl
start-start_told (some SubscriptionStatus.canceled) first named s h = refl
start-start_told (some SubscriptionStatus.in_grace) first named s h = refl
start-start_told (some SubscriptionStatus.pending) first named s h = refl
start-start_told (some (SubscriptionStatus.other n)) first named s h = refl

keep_or-named_or : (named p : Option ℕ) → keep_or named p ≡ named_or named p
keep_or-named_or none p = refl
keep_or-named_or (some i) p = refl

update-update_told :
    (e : BillingEvent) (s : Standing)
    → update_standing e s ≡ update_told (is_some e.cancelled_at) e.plan_id s
update-update_told e nothing = refl
update-update_told e (subscribed p) = rw (keep_or-named_or e.plan_id p) refl
update-update_told e (grace p u) = rw (keep_or-named_or e.plan_id p) refl
update-update_told e (ended p) = rw (keep_or-named_or e.plan_id p) refl

module _ (details : Option (Option Card)) (h u : ℕ) where
  read_host :
      (m : Option Metadata) (f : ℕ → BillingEvent)
      → host_named m ≡ some h
      → with_host (of_metadata (λ d. d.host_id) m) f ≡ event (f h)
  read_host m f found = rw (of_metadata-host_named m, found) refl

  pub message-Reads : (m : Message) → host_named (metadata_of m) ≡ some h → Reads m details h u
  unfolding verify_webhook is_payment_event is_subscription_event parse_payment_event
      parse_subscription_event
  message-Reads (Message.paid d) found = record {
    made = parse_payment_event (codes "payment.succeeded") d h;
    read = read_host d.metadata (parse_payment_event (codes "payment.succeeded") d) found;
    host = refl;
    does = λ s. ap subscribed (of_metadata-plan_named d.metadata);
  }
  message-Reads (Message.unpaid d) found = record {
    made = parse_payment_event (codes "payment.failed") d h;
    read = read_host d.metadata (parse_payment_event (codes "payment.failed") d) found;
    host = refl;
    does = λ s. refl;
  }
  message-Reads (Message.started d) found = record {
    made = parse_subscription_event (codes "subscription.active") d details h;
    read =
        read_host d.metadata (parse_subscription_event (codes "subscription.active") d details)
          found;
    host = refl;
    does = λ s. rw (of_metadata-plan_named d.metadata) (start-start_told d.status active _ s refl);
  }
  message-Reads (Message.renewed d) found = record {
    made = parse_subscription_event (codes "subscription.renewed") d details h;
    read =
        read_host d.metadata (parse_subscription_event (codes "subscription.renewed") d details)
          found;
    host = refl;
    does = λ s. rw (of_metadata-plan_named d.metadata) refl;
  }
  message-Reads (Message.failed d) found = record {
    made = parse_subscription_event (codes "subscription.failed") d details h;
    read =
        read_host d.metadata (parse_subscription_event (codes "subscription.failed") d details)
          found;
    host = refl;
    does = λ s. refl;
  }
  message-Reads (Message.on_hold d) found = record {
    made = parse_subscription_event (codes "subscription.on_hold") d details h;
    read =
        read_host d.metadata (parse_subscription_event (codes "subscription.on_hold") d details)
          found;
    host = refl;
    does = λ s. refl;
  }
  message-Reads (Message.cancelled d) found = record {
    made = parse_subscription_event (codes "subscription.cancelled") d details h;
    read =
        read_host d.metadata (parse_subscription_event (codes "subscription.cancelled") d details)
          found;
    host = refl;
    does = λ s. refl;
  }
  message-Reads (Message.pending d) found = record {
    made = parse_subscription_event (codes "subscription.pending") d details h;
    read =
        read_host d.metadata (parse_subscription_event (codes "subscription.pending") d details)
          found;
    host = refl;
    does =
        λ s. rw (of_metadata-plan_named d.metadata) (start-start_told d.status no_status _ s refl);
  }
  message-Reads (Message.updated d) found = record {
    made = parse_subscription_event (codes "subscription.updated") d details h;
    read =
        read_host d.metadata (parse_subscription_event (codes "subscription.updated") d details)
          found;
    host = refl;
    does = λ s. rw (sym (of_metadata-plan_named d.metadata)) (
        update-update_told (parse_subscription_event (codes "subscription.updated") d details h) s);
  }
  message-Reads (Message.expired d) found = record {
    made = parse_subscription_event (codes "subscription.expired") d details h;
    read =
        read_host d.metadata (parse_subscription_event (codes "subscription.expired") d details)
          found;
    host = refl;
    does = λ s. refl;
  }
