-- ===== src/Subscription/Requests/Sync.antt =====
-- `SyncSubscriptionDetails` of internal/modules/billing/service/billing_service.go: what a host has
-- after it.
use mathlib.Core.Option
use queuebuzz.Prelude.{
  ℕ, ◌≡◌, refl, false, some, get_or, if◌then◌else◌, ◌==◌, ==_self, Bool-cases, inl, inr,
}
use queuebuzz.Net.{ok, calm}
use queuebuzz.Queue.World.{Backend, World}
use queuebuzz.Subscription.Domain.{Subscription, is_in_grace, is_canceled}
use queuebuzz.Subscription.Standing.{subscribed, ended, view}
use queuebuzz.Subscription.Requests.{Details, sync_update, sync_subscription_details}

-- When every call is answered and the status is not that of a grace period, a host is subscribed
-- after it, or has lost the plan if the status is the program's own for a cancellation, whatever
-- the stored document said, also if that was cancelled in the meantime; no other subscription
-- changes.
pub sync_subscription_details-standing :
    (B : Backend) (s t : Subscription) (provider : ℕ) (d : Details) (w : World B)
    → s.provider_subscription_id ≡ some provider
    → B.subscriptions.find_one s.host_id w.subscriptions ≡ some t
    → is_in_grace (get_or d.status s.status) ≡ false
    → let r = sync_subscription_details B s (ok d) (calm w) in
      (r.0 ≡ ok tt)
      × (view (B.subscriptions.find_one s.host_id r.1.state.subscriptions) ≡ (
          if is_canceled (get_or d.status s.status) then ended t.plan_id else subscribed t.plan_id))
      × ((i : ℕ)
          → (s.host_id == i) ≡ false
          → B.subscriptions.find_one i r.1.state.subscriptions
            ≡ B.subscriptions.find_one i w.subscriptions)
unfolding sync_subscription_details calm
sync_subscription_details-standing B s t provider d w known found foreign = rw known (
  refl,
  rw (updated s.host_id, ==_self s.host_id, found)
      (elim (Bool-cases (is_canceled (get_or d.status s.status))) [
        | inl x ↦ rw x refl
        | inr x ↦ rw (x, foreign) refl
      ]),
  λ i ne. rw (updated i, ne) refl,
)
  where
    updated :
        (i : ℕ)
        → B.subscriptions.find_one i
            (B.subscriptions.update_one s.host_id (sync_update d s w.now) w.subscriptions)
          ≡ (if s.host_id == i
              then Option.map (sync_update d s w.now) (B.subscriptions.find_one i w.subscriptions)
              else B.subscriptions.find_one i w.subscriptions)
    updated i =
        B.subscriptions.find_one-update_one s.host_id i (sync_update d s w.now) w.subscriptions
          (λ e. refl)
