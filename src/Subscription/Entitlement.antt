-- ===== src/Subscription/Entitlement.antt =====
-- `GetHostPlan` and `GetSubscription` of internal/modules/billing/service/billing_service.go: which
-- plan a host has by its standing, and what the end of a grace period changes.
use queuebuzz.Prelude.{
  ℕ, ◌≡◌, refl, ◌∙◌, Bool, true, false, Bool-cases, inl, inr, Option, none, some, Option-cases, ltb,
  if◌then◌else◌, arith,
}
use queuebuzz.Net.{Reply, ok, err, no_documents, calm}
use queuebuzz.Queue.World.{Backend, World}
use queuebuzz.Queue.Lookup.{or_missing}
use queuebuzz.Subscription.Domain.{Plan, Subscription, free_tier}
use queuebuzz.Subscription.Standing.{Standing, nothing, subscribed, grace, ended, view, view_of}
use queuebuzz.Subscription.Plans.{
  is_over, is_standing, cancelled_now, find_plan, get_plan_by_id, standard_free_plan,
  get_standard_free_plan, get_cached_host_plan, set_cache_host_plan, downgrade_host_tier,
  standing_subscription, get_subscription, handle_no_subscription, plan_of_subscription,
  get_host_plan,
}

-- The specification: a plan by its identifier, and the free one.
abbrev pub entitled : ℕ → (Option ℕ → Option Plan) → Option Plan → Standing → Option Plan
entitled now plan free nothing = free
entitled now plan free (subscribed p) = plan p
entitled now plan free (grace p u) = if ltb u now then free else plan p
entitled now plan free (ended p) = free

abbrev pub lapsed : ℕ → Standing → Bool
lapsed now (grace p u) = ltb u now
lapsed now _ = false

-- A document that does not stand has no plan, and one that stands is over when its grace period is.
ended-view : (s : Subscription) → is_standing s ≡ false → view_of s ≡ ended s.plan_id
ended-view s h = ground arith

lapsed-view :
    (now : ℕ) (s : Subscription) → is_standing s ≡ true → lapsed now (view_of s) ≡ is_over now s
lapsed-view now s h = ground arith

entitled-view :
    (now : ℕ) (plan : Option ℕ → Option Plan) (free : Option Plan) (s : Subscription)
    → is_standing s ≡ true
    → entitled now plan free (view_of s) ≡ (if is_over now s then free else plan s.plan_id)
entitled-view now plan free s h = ground arith

module _ (B : Backend) (h : ℕ) where
  -- The world after the end of a grace period was seen.
  abbrev pub after_lapse : World B → World B
  after_lapse w = record w {
    subscriptions = B.subscriptions.update_one h (cancelled_now w.now) w.subscriptions;
    hosts = B.hosts.update_one h (λ d. record d { tier = free_tier }) w.hosts;
  }

  abbrev pub after_query : World B → World B
  after_query w =
      if lapsed w.now (view (B.subscriptions.find_one h w.subscriptions)) then after_lapse w else w

  -- The plan is cached, if there is one.
  abbrev pub cached : Option Plan → World B → World B
  cached none w = w
  cached (some p) w = record w { plan_caches = B.plan_caches.put h p w.plan_caches }

  free_plan-calm :
      (w : World B)
      → handle_no_subscription B h (calm w) ≡ (
        or_missing (standard_free_plan B w.plans),
        calm (cached (standard_free_plan B w.plans) w),
      )
  unfolding handle_no_subscription get_standard_free_plan set_cache_host_plan calm
  free_plan-calm w = elim (Option-cases (standard_free_plan B w.plans)) [
    | inl x ↦ rw (x, or_missing) refl
    | inr (p, x) ↦ rw (x, or_missing) refl
  ]

  named_plan-calm :
      (s : Subscription) (w : World B)
      → plan_of_subscription B h (ok s) (calm w) ≡ (
        or_missing (find_plan B s.plan_id w.plans),
        calm (cached (find_plan B s.plan_id w.plans) w),
      )
  unfolding get_plan_by_id set_cache_host_plan calm
  named_plan-calm s w = elim (Option-cases (find_plan B s.plan_id w.plans)) [
    | inl x ↦ rw (x, or_missing) refl
    | inr (p, x) ↦ rw (x, or_missing) refl
  ]

  -- `GetSubscription` finds no subscription, or one that stands, or one that is over.
  no_subscription-calm :
      (w : World B)
      → standing_subscription B h w ≡ none
      → get_subscription B h (calm w) ≡ (err no_documents, calm w)
  unfolding get_subscription calm
  no_subscription-calm w x = rw (x, or_missing) refl

  subscription-calm :
      (s : Subscription) (w : World B)
      → standing_subscription B h w ≡ some s
      → get_subscription B h (calm w)
        ≡ (if is_over w.now s then (err no_documents, calm (after_lapse w)) else (ok s, calm w))
  unfolding get_subscription downgrade_host_tier calm
  subscription-calm s w x = rw (x, or_missing) refl

  query-calm :
      (r : Reply Subscription) (v w : World B)
      → B.plan_caches.get h w.plan_caches ≡ none
      → get_subscription B h (calm w) ≡ (r, calm v)
      → get_host_plan B h (calm w) ≡ plan_of_subscription B h r (calm v)
  unfolding get_host_plan get_cached_host_plan calm
  query-calm r v w no_cache run = rw (no_cache, run) refl

  -- When every call is answered and no plan of the host is cached, GetHostPlan gives the plan that
  -- the specification gives for the standing of the host, or the error that there is none, and
  -- caches it; a grace period that has passed ends the subscription and takes the host to the free
  -- tier, and nothing else changes.
  pub get_host_plan-entitled :
      (w : World B)
      → B.plan_caches.get h w.plan_caches ≡ none
      → let plan =
          entitled w.now
            (λ i. find_plan B i w.plans)
            (standard_free_plan B w.plans)
            (view (B.subscriptions.find_one h w.subscriptions)) in
        get_host_plan B h (calm w) ≡ (or_missing plan, calm (cached plan (after_query w)))
  get_host_plan-entitled w no_cache =
      elim (Option-cases (B.subscriptions.find_one h w.subscriptions)) [
        | inl x ↦
            query-calm (err no_documents) w w no_cache (no_subscription-calm w (rw x refl))
            ∙ rw x (free_plan-calm w)
        | inr (s, x) ↦ elim (Bool-cases (is_standing s)) [
          | inl y ↦ standing_case s x y
          | inr y ↦
              query-calm (err no_documents) w w no_cache (no_subscription-calm w (rw (x, y) refl))
              ∙ rw (x, ended-view s y) (free_plan-calm w)
        ]
      ]
    where
      standing_case :
          (s : Subscription)
          → B.subscriptions.find_one h w.subscriptions ≡ some s
          → is_standing s ≡ true
          → let plan =
              entitled w.now
                (λ i. find_plan B i w.plans)
                (standard_free_plan B w.plans)
                (view (B.subscriptions.find_one h w.subscriptions)) in
            get_host_plan B h (calm w) ≡ (or_missing plan, calm (cached plan (after_query w)))
      standing_case s x y = elim (Bool-cases (is_over w.now s)) [
        | inl z ↦
            query-calm (err no_documents) (after_lapse w) w no_cache
              (subscription-calm s w (rw (x, y) refl) ∙ rw z refl)
            ∙ rw
                (
                  x,
                  entitled-view w.now (λ i. find_plan B i w.plans) (standard_free_plan B w.plans) s
                      y,
                  lapsed-view w.now s y,
                  z,
                )
                (free_plan-calm (after_lapse w))
        | inr z ↦
            query-calm (ok s) w w no_cache (subscription-calm s w (rw (x, y) refl) ∙ rw z refl)
            ∙ rw
                (
                  x,
                  entitled-view w.now (λ i. find_plan B i w.plans) (standard_free_plan B w.plans) s
                      y,
                  lapsed-view w.now s y,
                  z,
                )
                (named_plan-calm s w)
      ]
