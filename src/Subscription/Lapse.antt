-- ===== src/Subscription/Lapse.antt =====
-- `ProcessBillingEvent` and then `GetHostPlan` of
-- internal/modules/billing/service/billing_service.go: the plan that a host has after an event, and
-- when a payment is not made up for.
use queuebuzz.Prelude.{ℕ, ◌<◌, ◌≡◌, refl, ◌∙◌, ap, false, Option, none, lt→ltb, ==_self}
use queuebuzz.Net.{calm}
use queuebuzz.Calendar.{add_days}
use queuebuzz.Queue.World.{Backend, World}
use queuebuzz.Queue.Lookup.{or_missing}
use queuebuzz.Subscription.Domain.{BillingEvent, EventType, is_in_grace}
use queuebuzz.Subscription.Changes.{grace_days}
use queuebuzz.Subscription.Standing.{
  subscribed, grace, ended, view, standing_after, view-map-cancelled_now,
}
use queuebuzz.Subscription.Plans.{cancelled_now, find_plan, standard_free_plan, get_host_plan}
use queuebuzz.Subscription.Events.{process_billing_event}
use queuebuzz.Subscription.Frame.{accounts}
use queuebuzz.Subscription.Updates.{Became}
use queuebuzz.Subscription.Refinement.{process_billing_event-Became}
use queuebuzz.Subscription.Entitlement.{entitled, after_lapse, cached, get_host_plan-entitled}

module _ (B : Backend) (e : BillingEvent) (tx id : ℕ) (w : World B)
    (known : is_in_grace e.status ≡ false) where
  abbrev pub after : World B
  after = (process_billing_event B tx id e (calm w)).1.state

  abbrev pub grace_end : ℕ
  grace_end = add_days (grace_days w.settings) w.now

  pub became :
      Became B e.host_id w
        (standing_after grace_end e e.type
          (view (B.subscriptions.find_one e.host_id w.subscriptions)))
        (accounts B after)
  became = (process_billing_event-Became B e tx id w known).1

  -- When every call is answered and the event does not bring the status of a grace period, the plan
  -- that GetHostPlan gives after an event is the one of the standing that the specification gives.
  pub get_host_plan-process_billing_event :
      (get_host_plan B e.host_id (calm after)).0
      ≡ or_missing (
          entitled w.now
            (λ i. find_plan B i w.plans)
            (standard_free_plan B w.plans)
            (standing_after grace_end e e.type
              (view (B.subscriptions.find_one e.host_id w.subscriptions))))
  get_host_plan-process_billing_event =
      ap (λ x. x.0) (get_host_plan-entitled B e.host_id after became.no_cache)
      ∙ rw (became.plans, became.now, became.standing) refl

  -- When every call is answered, the standing of a host with a subscription whose payment fails is a
  -- grace period. In any later state, after this period, in which the subscriptions and the plans are
  -- those that the event has left and no plan of the host is cached (as a request for it during the
  -- period would leave one), the next request for the plan of the host gets the free one, the
  -- subscription has ended and nothing but it, the tier and the cache changes.
  pub get_host_plan-lapse :
      (v : World B) (p : Option ℕ)
      → e.type ≡ EventType.payment_failed
      → view (B.subscriptions.find_one e.host_id w.subscriptions) ≡ subscribed p
      → v.subscriptions ≡ after.subscriptions
      → v.plans ≡ after.plans
      → B.plan_caches.get e.host_id v.plan_caches ≡ none
      → grace_end < v.now
      → (get_host_plan B e.host_id (calm v) ≡ (
        or_missing (standard_free_plan B w.plans),
        calm (cached B e.host_id (standard_free_plan B w.plans) (after_lapse B e.host_id v)),
      ))
        × (view (B.subscriptions.find_one e.host_id (after_lapse B e.host_id v).subscriptions)
            ≡ ended p)
  get_host_plan-lapse v p failed standing kept plans uncached passed = (
    get_host_plan-entitled B e.host_id v uncached
        ∙ rw (plans, became.plans, in_grace, lt→ltb grace_end v.now passed) refl,
    ap view (
          B.subscriptions.find_one-update_one e.host_id e.host_id (cancelled_now v.now)
            v.subscriptions (λ d. refl))
        ∙ rw (==_self e.host_id) (
            view-map-cancelled_now v.now (B.subscriptions.find_one e.host_id v.subscriptions)
            ∙ rw in_grace refl),
  )
    where
      in_grace : view (B.subscriptions.find_one e.host_id v.subscriptions) ≡ grace p grace_end
      in_grace =
          ap (λ c. view (B.subscriptions.find_one e.host_id c)) kept
          ∙ became.standing
          ∙ rw (failed, standing) refl
