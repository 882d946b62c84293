-- ===== src/Billing.antt =====
-- internal/modules/billing/service/billing_service.go: the limits of a plan and the counters of a
-- host. The host's plan, which Subscription/Plans models, is an argument, and so is the moment of a
-- queue's creation. Usage and Quota follow a host through creations and deletions.
pub mod Deletions
pub mod Usage
pub mod Quota
use queuebuzz.Prelude.{
  ℕ, suc, ◌+◌, ◌-◌, ◌*◌, Bool, true, false, ◌&&◌, Option, none, some, List, [], ◌∷◌, is_empty,
  length, keep, ltb, leb, ◌==◌, if◌then◌else◌,
}
use queuebuzz.Net.{
  Net, Reply, ok, err, rejected, ◌>>=◌, ◌>>◌, pure, fail, request, write, attempt, observe,
}
use queuebuzz.Subscription.Domain.{Plan}
use queuebuzz.Queue.Domain.{Host}
use queuebuzz.Queue.World.{Backend, World, Call}
use queuebuzz.Queue.Lookup.{or_missing}

pub data LimitType : Type 0 where
  queues_monthly guests : LimitType

-- 31 days in milliseconds.
abbrev pub reset_period : ℕ
reset_period = 31 * 24 * 3600 * 1000

-- `MonthlyLimitResetAt.IsZero() || time.Since(MonthlyLimitResetAt) > 31*24*time.Hour`
unfoldable pub is_reset_due : ℕ → Host → Bool
is_reset_due now h = elim h.monthly_limit_reset_at [
  | none ↦ true
  | some t ↦ ltb reset_period (now - t)
]

-- `!queueCreatedAt.Before(MonthlyLimitResetAt)`; nothing lies before the zero time.
abbrev pub is_this_month : Host → ℕ → Bool
is_this_month h created = elim h.monthly_limit_reset_at [ none ↦ true | some t ↦ leb t created ]

abbrev pub smaller : ℕ → ℕ → ℕ
smaller a b = if ltb a b then a else b

unfoldable pub counted_up : Host → Host
counted_up h = record h {
  monthly_queue_count = h.monthly_queue_count + 1;
  total_queue_count = h.total_queue_count + 1;
}

-- What a deletion takes off the two counters.
pub record Taken : Type 0 where
  pub total : ℕ
  pub monthly : ℕ

-- `$inc` by the negated amounts. The counters that were read have not changed since, so none
-- becomes negative.
unfoldable pub take_off : Taken → Host → Host
take_off t h = record h {
  total_queue_count = h.total_queue_count - t.total;
  monthly_queue_count = h.monthly_queue_count - t.monthly;
}

abbrev pub is_nothing : Taken → Bool
is_nothing t = (t.total == 0) && (t.monthly == 0)

-- `DecrementMonthlyQueueCount`
unfoldable pub taken : ℕ → Host → Taken
taken created h = record {
  total = if ltb 0 h.total_queue_count then 1 else 0;
  monthly = if ltb 0 h.monthly_queue_count && is_this_month h created then 1 else 0;
}

-- `DecrementMonthlyQueueCountBulk` counts the queues of the month and caps the amounts.
unfoldable pub taken_bulk : List ℕ → Host → Taken
taken_bulk created h = record {
  total = smaller h.total_queue_count (length created);
  monthly = smaller h.monthly_queue_count (length (keep (is_this_month h) created));
}

unfoldable pub limits_reset : ℕ → Host → Host
limits_reset now h = record h { monthly_queue_count = 0; monthly_limit_reset_at = some now }

-- The usage -1 is `none`, and reaches no limit.
abbrev pub is_reached : ℕ → Option ℕ → Bool
is_reached limit none = false
is_reached limit (some usage) = leb limit usage

module _ (B : Backend) where
  unfoldable pub get_host : ℕ → Call B Host
  get_host h = request (λ w. (or_missing (B.hosts.find_one h w.hosts), w))

  abbrev pub update_host : ℕ → (ℕ → Host → Host) → Call B (Unit {0})
  update_host h f = write (λ w. record w { hosts = B.hosts.update_one h (f w.now) w.hosts })

  unfoldable pub reset_monthly_limits : ℕ → Call B (Unit {0})
  reset_monthly_limits h = update_host h limits_reset

  unfoldable pub increment_monthly_queue_count : Option ℕ → Call B (Unit {0})
  increment_monthly_queue_count none = pure tt
  increment_monthly_queue_count (some h) = update_host h (λ now. counted_up)

  abbrev pub take_off_host : ℕ → Taken → Call B (Unit {0})
  take_off_host h t = if is_nothing t then pure tt else update_host h (λ now. take_off t)

  unfoldable pub decrement_monthly_queue_count : Option ℕ → ℕ → Call B (Unit {0})
  decrement_monthly_queue_count none created = pure tt
  decrement_monthly_queue_count (some h) created = do
    host ← get_host h
    take_off_host h (taken created host)

  unfoldable pub decrement_monthly_queue_count_bulk : Option ℕ → List ℕ → Call B (Unit {0})
  decrement_monthly_queue_count_bulk none created = pure tt
  decrement_monthly_queue_count_bulk (some h) [] = pure tt
  decrement_monthly_queue_count_bulk (some h) (c ∷ cs) = do
    host ← get_host h
    take_off_host h (taken_bulk (c ∷ cs) host)

  abbrev pub healed_usage : ℕ → Host → Call B (Option ℕ)
  healed_usage h host n =
      if is_reset_due n.state.now host
      then (attempt (reset_monthly_limits h) >> pure (some 0)) n
      else (ok (some host.monthly_queue_count), n)

  abbrev pub usage_of : ℕ → Option Host → Call B (Option ℕ)
  usage_of h none = pure none
  usage_of h (some host) = healed_usage h host

  -- A usage that is given, or that of the host.
  unfoldable pub current_usage : ℕ → Option ℕ → Call B (Option ℕ)
  current_usage h (some usage) = pure (some usage)
  current_usage h none = do host ← attempt (get_host h); usage_of h host

  unfoldable pub is_limit_exceeded : Reply Plan → ℕ → LimitType → Option ℕ → Call B Bool
  is_limit_exceeded (err e) h limit usage = fail e
  is_limit_exceeded (ok plan) h queues_monthly usage =
      let counted = current_usage h usage >>= λ u. pure (is_reached plan.max_queues_per_month u) in
      if plan.max_queues_per_month == 0 then pure false else counted
  is_limit_exceeded (ok plan) h guests usage = pure (
      if plan.max_guests_per_queue == 0
      then false
      else is_reached (suc plan.max_guests_per_queue) usage)

  -- `checkMonthlyQuota` of internal/modules/queue/http/create_queue_guard.go: 500 if the limit
  -- cannot be checked, 403 if it is exceeded.
  abbrev pub refuse_exceeded : Reply Bool → Call B (Unit {0})
  refuse_exceeded (err e) = fail (rejected 500)
  refuse_exceeded (ok exceeded) = if exceeded then fail (rejected 403) else pure tt

  unfoldable pub check_monthly_quota : Reply Plan → Option ℕ → Call B (Unit {0})
  check_monthly_quota plan none = pure tt
  check_monthly_quota plan (some h) = do
    exceeded ← observe (is_limit_exceeded plan h queues_monthly none)
    refuse_exceeded exceeded
