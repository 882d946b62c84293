-- ===== src/Subscription/Requests/Cancellation.antt =====
-- `CancelSubscriptionAtPeriodEnd` of internal/modules/billing/service/billing_service.go: what a host
-- has until the end of the period.
use mathlib.Core.Option
use Prim.Native.String.{String}
use queuebuzz.Prelude.{ℕ, ◌≡◌, refl, false, Option, none, some, if◌then◌else◌, ◌==◌, ==_self}
use queuebuzz.Net.{Reply, ok, err, rejected, calm}
use queuebuzz.Queue.World.{Backend, World}
use queuebuzz.Subscription.Domain.{Subscription}
use queuebuzz.Subscription.Plans.{is_over, get_subscription, invalidate_host_plan_cache}
use queuebuzz.Subscription.Standing.{view}
use queuebuzz.Subscription.Requests.{scheduled, cancel_subscription_at_period_end}

module _ (B : Backend) where
  find-scheduled :
      (h i : ℕ) (comment feedback : Option String) (now : ℕ) (c : B.subscriptions.Col)
      → B.subscriptions.find_one i (B.subscriptions.update_one h (scheduled comment feedback now) c)
        ≡ (if h == i
            then Option.map (scheduled comment feedback now) (B.subscriptions.find_one i c)
            else B.subscriptions.find_one i c)
  find-scheduled h i comment feedback now c =
      B.subscriptions.find_one-update_one h i (scheduled comment feedback now) c (λ d. refl)

  -- When every call is answered and the payment service agrees, a subscription that stands is marked,
  -- its standing is what it was, no other subscription changes, no plan of the host is cached, and
  -- to cancel it again is refused.
  pub cancel_subscription_at_period_end-keeps :
      (h provider : ℕ) (s : Subscription) (comment feedback : Option String) (w : World B)
      → B.subscriptions.find_one h w.subscriptions ≡ some s
      → s.cancelled_at ≡ none
      → is_over w.now s ≡ false
      → s.provider_subscription_id ≡ some provider
      → s.cancel_at_period_end ≡ false
      → let r = cancel_subscription_at_period_end B h comment feedback (ok tt) (calm w) in
        (r.0 ≡ ok tt)
        × (B.subscriptions.find_one h r.1.state.subscriptions
            ≡ some (scheduled comment feedback w.now s))
        × (view (B.subscriptions.find_one h r.1.state.subscriptions) ≡ view (some s))
        × ((i : ℕ)
            → (h == i) ≡ false
            → B.subscriptions.find_one i r.1.state.subscriptions
              ≡ B.subscriptions.find_one i w.subscriptions)
        × (B.plan_caches.get h r.1.state.plan_caches ≡ none)
        × ((c f : Option String) (answer : Reply (Unit {0}))
            → (cancel_subscription_at_period_end B h c f answer r.1).0 ≡ err (rejected 500))
  unfolding cancel_subscription_at_period_end get_subscription invalidate_host_plan_cache calm
  cancel_subscription_at_period_end-keeps h provider s comment feedback w found standing current
        known new =
      rw (found, standing, current, known, new)
        (
          refl,
          rw
              (
                find-scheduled h h comment feedback w.now w.subscriptions,
                ==_self h,
                found,
                standing,
                known,
              )
              refl,
          rw (find-scheduled h h comment feedback w.now w.subscriptions, ==_self h, found, standing)
              refl,
          λ i ne. rw (find-scheduled h i comment feedback w.now w.subscriptions, ne) refl,
          B.plan_caches.get-del h w.plan_caches,
          λ c f answer.
              rw
                (
                  find-scheduled h h comment feedback w.now w.subscriptions,
                  ==_self h,
                  found,
                  standing,
                  current,
                  known,
                )
                refl,
        )
