-- ===== src/Billing/Usage.antt =====
-- internal/modules/billing/service/billing_service.go and
-- internal/modules/queue/http/create_queue_guard.go: the monthly limit is kept.
use queuebuzz.Prelude.{
  ℕ, ◌+◌, ◌≤◌, ◌<◌, ◌≡◌, refl, sym, subst, ◌∙◌, false, Bool-cases, Option-cases, inl, inr, Option,
  none, some, List, [], ◌∷◌, leb, ◌==◌, ==_self, arith,
}
use mathlib.Core.Option
use mathlib.Core.Option.{some-injective}
use queuebuzz.Net.{ok, ◌>>◌, calm}
use queuebuzz.Queue.Domain.{Host}
use queuebuzz.Queue.World.{Backend, World, Call}
use queuebuzz.Queue.Lookup.{or_missing}
use queuebuzz.Billing.Deletions.{take_off_host-find}
use queuebuzz.Subscription.Domain.{Plan}
use queuebuzz.Billing.{
  taken, is_reset_due, counted_up, limits_reset, take_off, reset_monthly_limits,
  increment_monthly_queue_count, current_usage, get_host, is_limit_exceeded, check_monthly_quota,
  decrement_monthly_queue_count,
}

-- What changes the counter of a host's queues: a creation that passes the guard, a deletion, and
-- the reset of a renewal.
data Use : Type 0 where
  creates : Use
  deletes : ℕ → Use
  renews : Use

module _ (B : Backend) (plan : Plan) (h : ℕ) where
  unfoldable pub create_counted : Call B (Unit {0})
  create_counted =
      check_monthly_quota B (ok plan) (some h) >> increment_monthly_queue_count B (some h)

  unfoldable use_counter : Use → Call B (Unit {0})
  use_counter creates = create_counted
  use_counter (deletes created) = decrement_monthly_queue_count B (some h) created
  use_counter renews = reset_monthly_limits B h

  unfoldable use_all : List Use → World B → World B
  use_all [] w = w
  use_all (u ∷ us) w = use_all us (use_counter u (calm w)).1.state

  abbrev Kept : World B → Type 0
  Kept w =
      (d : Host)
      → B.hosts.find_one h w.hosts ≡ some d
      → d.monthly_queue_count ≤ plan.max_queues_per_month

  abbrev with_host : (Host → Host) → World B → World B
  with_host f w = record w { hosts = B.hosts.update_one h f w.hosts }

  with_host-Kept :
      (f : Host → Host) (w : World B)
      → ((d : Host) → (f d).id ≡ d.id)
      → ((d : Host)
          → B.hosts.find_one h w.hosts ≡ some d
          → (f d).monthly_queue_count ≤ plan.max_queues_per_month)
      → Kept (with_host f w)
  with_host-Kept f w keeps small d e = elim (Option-cases (B.hosts.find_one h w.hosts)) [
    | inl x ↦ absurd (
        Option.none-ne-some d
          (sym (B.hosts.find_one-update_one h h f w.hosts keeps ∙ rw (==_self h, x) refl) ∙ e))
    | inr (c, x) ↦
        subst (λ g. g.monthly_queue_count ≤ plan.max_queues_per_month)
          (some-injective (f c) d
            (sym (B.hosts.find_one-update_one h h f w.hosts keeps ∙ rw (==_self h, x) refl) ∙ e))
          (small c x)
  ]

  create_counted-Kept :
      (w : World B)
      → 0 < plan.max_queues_per_month
      → Kept w
      → Kept (create_counted (calm w)).1.state
  unfolding create_counted check_monthly_quota is_limit_exceeded current_usage get_host
      reset_monthly_limits increment_monthly_queue_count counted_up limits_reset calm
  create_counted-Kept w p k =
      let limited : (plan.max_queues_per_month == 0) ≡ false = ground arith in
      elim (Option-cases (B.hosts.find_one h w.hosts)) [
        | inl x ↦
            rw (limited, x, or_missing)
              (with_host-Kept counted_up w (λ d. refl)
                (λ d e. absurd (Option.none-ne-some d (sym x ∙ e))))
        | inr (d, x) ↦
            rw (limited, x, or_missing)
              (elim (Bool-cases (is_reset_due w.now d)) [
                | inl y ↦
                    let unreached : leb plan.max_queues_per_month 0 ≡ false = ground arith in
                    rw (y, unreached)
                      (with_host-Kept counted_up (with_host (limits_reset w.now) w) (λ d. refl)
                        (λ c e.
                          subst (λ g. g.monthly_queue_count + 1 ≤ plan.max_queues_per_month)
                            (some-injective (limits_reset w.now d) c (
                              sym (
                                B.hosts.find_one-update_one h h (limits_reset w.now) w.hosts
                                  (λ d. refl)
                                ∙ rw (==_self h, x) refl)
                              ∙ e))
                            (omega arith)))
                | inr y ↦
                    rw y (elim (Bool-cases (leb plan.max_queues_per_month d.monthly_queue_count)) [
                      | inl z ↦ rw z k
                      | inr z ↦ rw z (
                          with_host-Kept counted_up w (λ d. refl)
                            (λ c e.
                              subst (λ g. g.monthly_queue_count + 1 ≤ plan.max_queues_per_month)
                                (some-injective d c (sym x ∙ e)) (ground arith)))
                    ])
              ])
      ]

  deletion-Kept :
      (created : ℕ) (w : World B)
      → Kept w
      → Kept (decrement_monthly_queue_count B (some h) created (calm w)).1.state
  unfolding decrement_monthly_queue_count get_host take_off calm
  deletion-Kept created w k = elim (Option-cases (B.hosts.find_one h w.hosts)) [
    | inl x ↦ rw (x, or_missing) k
    | inr (d, x) ↦
        let (v, run, found) = take_off_host-find B h (taken created d) d w x in
        rw (x, or_missing, run)
          (λ c e.
            subst (λ g. g.monthly_queue_count ≤ plan.max_queues_per_month)
              (some-injective (take_off (taken created d) d) c (sym found ∙ e))
              (omega (arith, k d x)))
  ]

  use_counter-Kept :
      (u : Use) (w : World B)
      → 0 < plan.max_queues_per_month
      → Kept w
      → Kept (use_counter u (calm w)).1.state
  unfolding use_counter reset_monthly_limits limits_reset calm
  use_counter-Kept creates w p k = create_counted-Kept w p k
  use_counter-Kept (deletes created) w p k = deletion-Kept created w k
  use_counter-Kept renews w p k =
      with_host-Kept (limits_reset w.now) w (λ d. refl) (λ d e. omega arith)

  -- The host, if it is there, has used no more than the plan allows.
  abbrev Within : Option Host → Type 0
  Within none = Unit {0}
  Within (some d) = d.monthly_queue_count ≤ plan.max_queues_per_month

  Within-kept :
      (o : Option Host)
      → Within o
      → (d : Host) → o ≡ some d
      → d.monthly_queue_count ≤ plan.max_queues_per_month
  Within-kept none k d e = absurd (Option.none-ne-some d e)
  Within-kept (some c) k d e =
      subst (λ g. g.monthly_queue_count ≤ plan.max_queues_per_month) (some-injective c d e) k

  kept-Within :
      (o : Option Host)
      → ((d : Host) → o ≡ some d → d.monthly_queue_count ≤ plan.max_queues_per_month)
      → Within o
  kept-Within none k = tt
  kept-Within (some d) k = k d refl

  use_all-Kept :
      (us : List Use) (w : World B) → 0 < plan.max_queues_per_month → Kept w → Kept (use_all us w)
  unfolding use_all
  use_all-Kept [] w p k = k
  use_all-Kept (u ∷ us) w p k =
      use_all-Kept us (use_counter u (calm w)).1.state p (use_counter-Kept u w p k)

  -- When every call is answered and the plan has a monthly limit, a host who is within it stays so,
  -- whatever sequence of creations that pass the guard, of deletions and of renewals follows.
  use_all-Within :
      (us : List Use) (w : World B)
      → 0 < plan.max_queues_per_month
      → Within (B.hosts.find_one h w.hosts)
      → Within (B.hosts.find_one h (use_all us w).hosts)
  use_all-Within us w p k = kept-Within _ (use_all-Kept us w p (Within-kept _ k))
