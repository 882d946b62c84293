-- ===== src/Examples/Subscription.antt =====
-- The theorems on subscriptions at a small store, whose host has a paid plan.
use queuebuzz.Prelude.{Option, ◌==◌, ℕ, ◌≡◌, refl, false, none, some, [], ◌∷◌, arith}
use queuebuzz.Net.{Reply, err, rejected, ok, answered, request_lost, reply_lost, calm}
use queuebuzz.Calendar.{add_days}
use queuebuzz.Queue.World.{World}
use queuebuzz.Queue.Lookup.{or_missing}
use queuebuzz.Subscription.Domain.{
  canceled, Subscription, SubscriptionStatus, BillingEvent, EventType, BillingCycle,
}
use queuebuzz.Subscription.Standing.{subscribed, view, standing_after, ended}
use queuebuzz.Subscription.Plans.{find_plan, standard_free_plan, get_host_plan}
use queuebuzz.Subscription.Events.{process_billing_event}
use queuebuzz.Subscription.Frame.{accounts}
use queuebuzz.Subscription.Updates.{Became}
use queuebuzz.Subscription.Refinement.{process_billing_event-Became}
use queuebuzz.Subscription.Entitlement.{entitled, after_lapse, cached}
use queuebuzz.Subscription.Lapse.{
  after, became, get_host_plan-process_billing_event, get_host_plan-lapse,
}
use Prim.Native.String.{String}
use queuebuzz.Subscription.Reminders.{run_renewal_reminders}
use queuebuzz.Subscription.Reminders.Once.{run_renewal_reminders-once}
use queuebuzz.Subscription.Requests.{
  Details, scheduled, cancel_subscription_at_period_end, sync_subscription_details,
}
use queuebuzz.Subscription.Requests.Cancellation.{cancel_subscription_at_period_end-keeps}
use queuebuzz.Subscription.Requests.Sync.{sync_subscription_details-standing}
use queuebuzz.Subscription.Provider.{SubscriptionData}
use queuebuzz.Subscription.Provider.Message.{Message}
use queuebuzz.Subscription.Webhook.{handle_webhook, event}
use queuebuzz.Subscription.Invoices.{
  first_delivery, process_billing_event-records, handle_webhook-redelivery,
}
use queuebuzz.Examples.World.{backend, world, no_subscription}

abbrev pub pro_subscription : Subscription
pro_subscription = record no_subscription {
  host_id = 5;
  plan_id = some 2;
  status = SubscriptionStatus.active;
  current_period_end = 5000;
}

abbrev pub paying : World backend
paying = record world { subscriptions = record { keys = 5 ∷ []; doc = λ i. pro_subscription } }

abbrev pub payment : EventType → BillingEvent
payment type = record {
  type = type;
  host_id = 5;
  plan_id = some 2;
  billing_cycle = some BillingCycle.monthly;
  status = SubscriptionStatus.active;
  provider_id = some 70;
  subscription_id = some 70;
  provider_customer_id = some 71;
  provider_payment_id = some 72;
  amount = 9;
  total_amount = 10;
  currency = "USD";
  current_period_end = none;
  previous_billing_date = none;
  cancel_at_period_end = false;
  cancellation_comment = none;
  cancellation_feedback = none;
  cancelled_at = none;
  card = none;
}

-- Three days after 200.
abbrev grace_end : ℕ
grace_end = add_days 3 200

process_billing_event-Became_example :
    ((process_billing_event backend 1 2 (payment EventType.payment_succeeded) (calm world)).0
      ≡ ok tt)
    × Became backend 5 world
        (standing_after grace_end
          (payment EventType.payment_succeeded)
          EventType.payment_succeeded
          (view (backend.subscriptions.find_one 5 world.subscriptions)))
        (accounts backend
          (process_billing_event backend 1 2
            (payment EventType.payment_succeeded)
            (calm world)).1.state)
process_billing_event-Became_example =
    process_billing_event-Became backend (payment EventType.payment_succeeded) 1 2 world refl

get_host_plan-process_billing_event_example :
    (get_host_plan backend 5 (
      calm
        (process_billing_event backend 1 2
          (payment EventType.payment_succeeded)
          (calm world)).1.state)).0
    ≡ or_missing (
        entitled 200
          (λ i. find_plan backend i world.plans)
          (standard_free_plan backend world.plans)
          (standing_after grace_end
            (payment EventType.payment_succeeded)
            EventType.payment_succeeded
            (view (backend.subscriptions.find_one 5 world.subscriptions))))
get_host_plan-process_billing_event_example =
    get_host_plan-process_billing_event backend (payment EventType.payment_succeeded) 1 2 world refl

-- A day and more after the grace period; no request has been made meanwhile.
abbrev unasked : World backend
unasked = record (after backend (payment EventType.payment_failed) 1 2 paying refl) {
  now = 300_000_000;
}

get_host_plan-lapse_example :
    (get_host_plan backend 5 (calm unasked) ≡ (
      or_missing (standard_free_plan backend paying.plans),
      calm (
          cached backend 5
            (standard_free_plan backend paying.plans)
            (after_lapse backend 5 unasked)),
    ))
    × (view (backend.subscriptions.find_one 5 (after_lapse backend 5 unasked).subscriptions)
        ≡ ended (some 2))
get_host_plan-lapse_example =
    get_host_plan-lapse backend (payment EventType.payment_failed) 1 2 paying refl unasked (some 2)
      refl refl refl refl
      (became backend (payment EventType.payment_failed) 1 2 paying refl).no_cache (omega arith)

process_billing_event-records_example :
    (process_billing_event backend 1 2 (payment EventType.payment_failed) (record (calm paying) {
      fates = answered ∷ reply_lost ∷ request_lost ∷ [];
    })).1.state.billing_records
    ≡ paying.billing_records
unfolding calm
process_billing_event-records_example =
    process_billing_event-records backend 1 2 (payment EventType.payment_failed)
      (record (calm paying) { fates = answered ∷ reply_lost ∷ request_lost ∷ [] }) refl

-- The write of the subscription is lost in the first delivery.
abbrev lost_write : World backend
lost_write =
    (first_delivery backend 1 2 90 (payment EventType.payment_succeeded)
      (answered ∷ answered ∷ answered ∷ answered ∷ answered ∷ answered ∷ answered ∷ request_lost
        ∷ [])
      world).1.state

handle_webhook-redelivery_example :
    handle_webhook backend 1 2
      (some 90)
      (event (payment EventType.payment_succeeded))
      (calm lost_write)
    ≡ (ok tt, calm lost_write)
handle_webhook-redelivery_example =
    handle_webhook-redelivery backend 1 2 90 (payment EventType.payment_succeeded)
      (answered ∷ answered ∷ answered ∷ answered ∷ answered ∷ answered ∷ answered ∷ request_lost
        ∷ [])
      world refl

-- The payment service tells that a subscription has expired.
abbrev expired_data : SubscriptionData
expired_data = record {
  subscription_id = some 61;
  status = none;
  currency = "USD";
  recurring_pre_tax_amount = 9;
  next_billing_date = none;
  previous_billing_date = some 100;
  cancel_at_next_billing_date = false;
  cancellation_comment = none;
  cancellation_feedback = none;
  cancelled_at = none;
  has_yearly_interval = false;
  customer_id = some 62;
  metadata = some (record { host_id = some 5; plan_id = some 2; billing_cycle = none });
}

abbrev expired_message : Message
expired_message = Message.expired expired_data

-- The host asks for the end of the subscription, and the payment service for a synchronisation of one
-- that is cancelled.
abbrev known_subscription : Subscription
known_subscription = record pro_subscription { provider_subscription_id = some 61 }

abbrev known : World backend
known = record world { subscriptions = record { keys = 5 ∷ []; doc = λ i. known_subscription } }

cancel_subscription_at_period_end-keeps_example :
    let r = cancel_subscription_at_period_end backend 5 none none (ok tt) (calm known) in
    (r.0 ≡ ok tt)
    × (backend.subscriptions.find_one 5 r.1.state.subscriptions
        ≡ some (scheduled none none 200 known_subscription))
    × (view (backend.subscriptions.find_one 5 r.1.state.subscriptions)
        ≡ view (some known_subscription))
    × ((i : ℕ)
        → (5 == i) ≡ false
        → backend.subscriptions.find_one i r.1.state.subscriptions
          ≡ backend.subscriptions.find_one i known.subscriptions)
    × (backend.plan_caches.get 5 r.1.state.plan_caches ≡ none)
    × ((c f : Option String) (answer : Reply (Unit {0}))
        → (cancel_subscription_at_period_end backend 5 c f answer r.1).0 ≡ err (rejected 500))
cancel_subscription_at_period_end-keeps_example =
    cancel_subscription_at_period_end-keeps backend 5 61 known_subscription none none known refl
      refl refl refl refl

abbrev gone : World backend
gone = record world {
  subscriptions = record {
    keys = 5 ∷ [];
    doc = λ i. record known_subscription { status = canceled; cancelled_at = some 150 };
  };
}

abbrev details : Details
details = record { card = none; status = none; next_billing_date = none }

sync_subscription_details-standing_example :
    let r = sync_subscription_details backend known_subscription (ok details) (calm gone) in
    (r.0 ≡ ok tt)
    × (view (backend.subscriptions.find_one 5 r.1.state.subscriptions) ≡ subscribed (some 2))
    × ((i : ℕ)
        → (5 == i) ≡ false
        → backend.subscriptions.find_one i r.1.state.subscriptions
          ≡ backend.subscriptions.find_one i gone.subscriptions)
sync_subscription_details-standing_example =
    sync_subscription_details-standing backend known_subscription
      (record known_subscription { status = canceled; cancelled_at = some 150 }) 61 details gone
      refl refl refl

-- The period of the host ends within three days.
run_renewal_reminders-once_example :
    let r = run_renewal_reminders backend (calm paying) in
    (r.0 ≡ ok tt) × (run_renewal_reminders backend r.1 ≡ (ok tt, r.1))
run_renewal_reminders-once_example = run_renewal_reminders-once backend paying
