-- ===== src/Subscription/Plans.antt =====
-- `GetHostPlan`, `GetSubscription` and the plans of
-- internal/modules/billing/service/billing_service.go, and the cache of service/redis.go. A missing
-- cache entry and an unreadable one are the same, and so is one that Redis does not return.
use queuebuzz.Prelude.{
  ℕ, Bool, true, false, not, ◌&&◌, Option, none, some, List, [], ◌∷◌, is_some, only, get_or, ltb,
  if◌then◌else◌, ◌==◌,
}
use queuebuzz.Net.{
  Error, no_documents, Reply, ok, err, ◌>>=◌, ◌>>◌, pure, fail, request, read, write, attempt,
  observe,
}
use queuebuzz.Subscription.Domain.{Plan, Subscription, canceled, is_in_grace, free_tier}
use queuebuzz.Queue.World.{Backend, World, Call}
use queuebuzz.Queue.Lookup.{or_missing}

abbrev pub last_of {ℓ} : {A : Type ℓ} → List A → Option A
last_of [] = none
last_of (a ∷ []) = some a
last_of (a ∷ b ∷ rest) = last_of (b ∷ rest)

abbrev pub is_no_documents : Error → Bool
is_no_documents no_documents = true
is_no_documents _ = false

-- The grace period has an end, and it has passed.
abbrev pub is_over : ℕ → Subscription → Bool
is_over now s =
    is_in_grace s.status && (elim s.grace_period_until [ none ↦ false | some u ↦ ltb u now ])

abbrev pub is_standing : Subscription → Bool
is_standing s = not (is_some s.cancelled_at)

abbrev pub cancelled_now : ℕ → Subscription → Subscription
cancelled_now now s = record s { status = canceled; cancelled_at = some now; updated_at = now }

module _ (B : Backend) where
  abbrev pub find_plan : Option ℕ → B.plans.Col → Option Plan
  find_plan none c = none
  find_plan (some i) c = B.plans.find_one i c

  unfoldable pub get_plan_by_id : Option ℕ → Call B Plan
  get_plan_by_id i = request (λ w. (or_missing (find_plan i w.plans), w))

  -- `FindOne` of the free plans, the last one created first
  abbrev pub standard_free_plan : B.plans.Col → Option Plan
  standard_free_plan c = last_of (B.plans.find (λ p. (p.tier == free_tier) && p.is_free) c)

  unfoldable pub get_standard_free_plan : Call B Plan
  get_standard_free_plan = request (λ w. (or_missing (standard_free_plan w.plans), w))

  unfoldable pub get_cached_host_plan : ℕ → Call B (Option Plan)
  get_cached_host_plan h = do
    cached ← attempt (read (λ w. B.plan_caches.get h w.plan_caches))
    pure (get_or cached none)

  unfoldable pub set_cache_host_plan : ℕ → Plan → Call B (Unit {0})
  set_cache_host_plan h p = do
    attempt (write (λ w. record w { plan_caches = B.plan_caches.put h p w.plan_caches }))
    pure tt

  unfoldable pub invalidate_host_plan_cache : ℕ → Call B (Unit {0})
  invalidate_host_plan_cache h = do
    attempt (write (λ w. record w { plan_caches = B.plan_caches.del h w.plan_caches }))
    pure tt

  abbrev pub update_subscription : ℕ → (ℕ → Subscription → Subscription) → Call B (Unit {0})
  update_subscription h f =
      write
        (λ w. record w { subscriptions = B.subscriptions.update_one h (f w.now) w.subscriptions })

  abbrev pub set_tier : ℕ → ℕ → Call B (Unit {0})
  set_tier h tier =
      write (λ w. record w { hosts = B.hosts.update_one h (λ d. record d { tier = tier }) w.hosts })

  unfoldable pub downgrade_host_tier : ℕ → Call B (Unit {0})
  downgrade_host_tier h = set_tier h free_tier

  abbrev pub standing_subscription : ℕ → World B → Option Subscription
  standing_subscription h w = only is_standing (B.subscriptions.find_one h w.subscriptions)

  -- What `GetSubscription` does with what it found.
  abbrev pub unless_over : ℕ → Subscription → Call B Subscription
  unless_over h s n =
      if is_over n.state.now s
      then (do
        attempt (update_subscription h cancelled_now)
        attempt (downgrade_host_tier h)
        fail no_documents)
          n
      else (ok s, n)

  unfoldable pub get_subscription : ℕ → Call B Subscription
  get_subscription h = do
    s ← request (λ w. (or_missing (standing_subscription h w), w))
    unless_over h s

  unfoldable pub handle_no_subscription : ℕ → Call B Plan
  handle_no_subscription h = do p ← get_standard_free_plan; set_cache_host_plan h p; pure p

  abbrev pub plan_of_subscription : ℕ → Reply Subscription → Call B Plan
  plan_of_subscription h (ok s) = do p ← get_plan_by_id s.plan_id; set_cache_host_plan h p; pure p
  plan_of_subscription h (err e) = if is_no_documents e then handle_no_subscription h else fail e

  abbrev pub plan_unless_cached : ℕ → Option Plan → Call B Plan
  plan_unless_cached h (some p) = pure p
  plan_unless_cached h none = do s ← observe (get_subscription h); plan_of_subscription h s

  unfoldable pub get_host_plan : ℕ → Call B Plan
  get_host_plan h = do cached ← get_cached_host_plan h; plan_unless_cached h cached

  -- `CheckHistoryAccess`, `CanViewGuestData` and `GetHistoryRetentionDays`
  unfoldable pub check_history_access : ℕ → Call B Bool
  check_history_access h = do p ← get_host_plan h; pure p.history_access

  unfoldable pub can_view_guest_data : Option ℕ → Call B Bool
  can_view_guest_data none = pure false
  can_view_guest_data (some h) = do p ← get_host_plan h; pure p.can_view_guest_data

  unfoldable pub get_history_retention_days : ℕ → Call B ℕ
  get_history_retention_days h = do p ← get_host_plan h; pure p.history_retention_days
