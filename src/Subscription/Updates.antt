-- ===== src/Subscription/Updates.antt =====
-- What the writes of a subscription in internal/modules/billing/service/billing_service.go do to its
-- view in Subscription/Standing.
use mathlib.Core.Option
use queuebuzz.Prelude.{
  ℕ, ◌≡◌, refl, sym, ap, false, inl, inr, Option, none, some, Option-cases, ◌==◌, ==_self,
}
use queuebuzz.Net.{ok, request, calm}
use queuebuzz.Net.Ends.{Ends, Outcome, Succeeds, Finishes, request-ends}
use queuebuzz.Queue.World.{Backend, World}
use queuebuzz.Subscription.Domain.{Subscription}
use queuebuzz.Subscription.Changes.{blank}
use queuebuzz.Subscription.Standing.{Standing, view}
use queuebuzz.Subscription.Plans.{invalidate_host_plan_cache, update_subscription}
use queuebuzz.Subscription.Events.{upsert_subscription, update_matched}
use queuebuzz.Subscription.Frame.{Accounts, accounts}

module _ (B : Backend) (h : ℕ) (w : World B) where
  pub record Same (a : Accounts B) : Type 0 where
    pub subscriptions : a.subscriptions ≡ w.subscriptions
    pub plans : a.plans ≡ w.plans
    pub settings : a.settings ≡ w.settings
    pub now : a.now ≡ w.now

  -- The state when the standing of the host is about to change.
  pub record Before (a : Accounts B) : Type 0 where
    pub subscriptions : a.subscriptions ≡ w.subscriptions
    pub plans : a.plans ≡ w.plans
    pub settings : a.settings ≡ w.settings
    pub now : a.now ≡ w.now
    pub no_cache : B.plan_caches.get h a.plan_caches ≡ none

  -- The standing of the host has changed to `s`, and no other subscription has.
  pub record Became (s : Standing) (a : Accounts B) : Type 0 where
    pub standing : view (B.subscriptions.find_one h a.subscriptions) ≡ s
    pub others :
        (i : ℕ)
        → (h == i) ≡ false
        → B.subscriptions.find_one i a.subscriptions ≡ B.subscriptions.find_one i w.subscriptions
    pub plans : a.plans ≡ w.plans
    pub now : a.now ≡ w.now
    pub no_cache : B.plan_caches.get h a.plan_caches ≡ none

  pub Before-Became :
      (a : Accounts B) → Before a → Became (view (B.subscriptions.find_one h w.subscriptions)) a
  Before-Became a b = record {
    standing = ap (λ c. view (B.subscriptions.find_one h c)) b.subscriptions;
    others = λ i ne. ap (B.subscriptions.find_one i) b.subscriptions;
    plans = b.plans;
    now = b.now;
    no_cache = b.no_cache;
  }

  -- An update that changes the view of each document by `g`.
  module _ (f : ℕ → Subscription → Subscription) (g : Standing → Standing)
      (same_host : (d : Subscription) → (f w.now d).host_id ≡ d.host_id)
      (views : (d : Subscription) → view (some (f w.now d)) ≡ g (view (some d))) where
    updated-standing :
        (o : Option Subscription)
        → g (view none) ≡ view none
        → view (Option.map (f w.now) o) ≡ g (view o)
    updated-standing none z = sym z
    updated-standing (some d) z = views d

    updated-Became :
        (u : World B)
        → view (Option.map (f w.now) (B.subscriptions.find_one h w.subscriptions))
          ≡ g (view (B.subscriptions.find_one h w.subscriptions))
        → Before (accounts B u)
        → Became (g (view (B.subscriptions.find_one h w.subscriptions))) (
            accounts B
              (record u { subscriptions = B.subscriptions.update_one h (f u.now) u.subscriptions }))
    updated-Became u moved b = record {
      standing =
          rw
            (
              b.subscriptions,
              b.now,
              B.subscriptions.find_one-update_one h h (f w.now) w.subscriptions same_host,
              ==_self h,
            )
            moved;
      others = λ i ne.
          rw
            (
              b.subscriptions,
              b.now,
              B.subscriptions.find_one-update_one h i (f w.now) w.subscriptions same_host,
              ne,
            )
            refl;
      plans = b.plans;
      now = b.now;
      no_cache = b.no_cache;
    }

    pub update-Became :
        g (view none) ≡ view none
        → Ends
            (λ u. Before (accounts B u))
            (update_subscription B h f)
            (Succeeds (λ a u.
              Became (g (view (B.subscriptions.find_one h w.subscriptions))) (accounts B u)))
    update-Became z = request-ends _ _ _ (λ u b.
        updated-Became u (updated-standing (B.subscriptions.find_one h w.subscriptions) z) b)

    pub matched-Became :
        g (view none) ≡ view none
        → Ends
            (λ u. Before (accounts B u))
            (update_matched B h f)
            (Succeeds (λ a u.
              Became (g (view (B.subscriptions.find_one h w.subscriptions))) (accounts B u)))
    unfolding update_matched
    matched-Became z = request-ends _ _ _ (λ u b.
        updated-Became u (updated-standing (B.subscriptions.find_one h w.subscriptions) z) b)

    module _ (plan : Option ℕ) (own : (f w.now (blank h plan w.now)).host_id ≡ h)
        (new : view (some (f w.now (blank h plan w.now))) ≡ g (view none)) where
      inserted-Became :
          (u : World B) (c : B.subscriptions.Col)
          → Before (accounts B u)
          → B.subscriptions.find_one h w.subscriptions ≡ none
          → B.subscriptions.insert_one (f w.now (blank h plan w.now)) w.subscriptions ≡ some c
          → Became
              (g (view (B.subscriptions.find_one h w.subscriptions)))
              (accounts B (record u { subscriptions = c }))
      inserted-Became u c b absent stored = record {
        standing =
            rw
              (
                B.subscriptions.find_one-insert_one h _ w.subscriptions c stored,
                own,
                ==_self h,
                absent,
              )
              new;
        others = λ i ne.
            rw (B.subscriptions.find_one-insert_one i _ w.subscriptions c stored, own, ne) refl;
        plans = b.plans;
        now = b.now;
        no_cache = b.no_cache;
      }

      pub upsert-Became :
          (u : World B)
          → Before (accounts B u)
          → Outcome
              (Succeeds (λ a u.
                Became (g (view (B.subscriptions.find_one h w.subscriptions))) (accounts B u)))
              (upsert_subscription B h plan f (calm u))
      unfolding upsert_subscription request calm
      upsert-Became u b = elim (Option-cases (B.subscriptions.find_one h w.subscriptions)) [
        | inl absent ↦
            let (c, stored) =
              B.insert_subscription (f w.now (blank h plan w.now)) w.subscriptions
                (rw own absent) in
            let absent_now : B.subscriptions.find_one h u.subscriptions ≡ none =
              rw b.subscriptions absent in
            let stored_now : B.subscriptions.insert_one (f u.now (blank h plan u.now))
                  u.subscriptions
                ≡ some c =
              rw (b.subscriptions, b.now) stored in
            (
              ok tt,
              record u { subscriptions = c },
              rw (absent_now, stored_now) refl,
              inserted-Became u c b absent stored,
            )
        | inr (d, there) ↦
            let there_now : B.subscriptions.find_one h u.subscriptions ≡ some d =
              rw b.subscriptions there in
            (
              ok tt,
              record u { subscriptions = B.subscriptions.update_one h (f u.now) u.subscriptions },
              rw there_now refl,
              updated-Became u (rw there (views d)) b,
            )
      ]

  pub invalidate-Before :
      Ends
        (λ u. Same (accounts B u))
        (invalidate_host_plan_cache B h)
        (Succeeds (λ a u. Before (accounts B u)))
  unfolding invalidate_host_plan_cache calm
  invalidate-Before u s = (
    ok tt,
    record u { plan_caches = B.plan_caches.del h u.plan_caches },
    refl,
    record {
      subscriptions = s.subscriptions;
      plans = s.plans;
      settings = s.settings;
      now = s.now;
      no_cache = B.plan_caches.get-del h u.plan_caches;
    },
  )

  pub invalidate-Became :
      (s : Standing) → Finishes (λ u. Became s (accounts B u)) (invalidate_host_plan_cache B h)
  unfolding invalidate_host_plan_cache calm
  invalidate-Became s u b = (
    ok tt,
    record u { plan_caches = B.plan_caches.del h u.plan_caches },
    refl,
    record {
      standing = b.standing;
      others = b.others;
      plans = b.plans;
      now = b.now;
      no_cache = B.plan_caches.get-del h u.plan_caches;
    },
  )
