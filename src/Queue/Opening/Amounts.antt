-- ===== src/Queue/Opening/Amounts.antt =====
-- `DecrementMonthlyQueueCount` of internal/modules/billing/service/billing_service.go: the amounts that
-- a deletion takes off the counters of a host.
use queuebuzz.Prelude.{
  ℕ, ◌-◌, ◌≡◌, refl, Bool, true, false, ◌&&◌, Option, none, some, Option-cases, inl, inr, ltb, leb,
  if◌then◌else◌, arith,
}
use queuebuzz.Queue.Domain.{Host}
use queuebuzz.Billing.{is_this_month, taken, take_off}

-- Whether a queue that was created at a time counts for the month of a host whose counter was last
-- reset at another, if ever.
abbrev pub counts_for_month : Option ℕ → ℕ → Bool
counts_for_month none created = true
counts_for_month (some reset) created = leb reset created

-- A host with one queue less, in all and, if the queue counts for it, in this month.
abbrev pub one_less : ℕ → Host → Host
one_less created d = record d {
  total_queue_count = d.total_queue_count - 1;
  monthly_queue_count =
      if counts_for_month d.monthly_limit_reset_at created
      then d.monthly_queue_count - 1
      else d.monthly_queue_count;
}

month-counts_for_month :
    (d : Host) (created : ℕ)
    → is_this_month d created ≡ counts_for_month d.monthly_limit_reset_at created
month-counts_for_month d created = elim (Option-cases d.monthly_limit_reset_at) [
  | inl x ↦ rw x refl
  | inr (t, x) ↦ rw x refl
]

less_if : (n : ℕ) (b : Bool) → n - (if ltb 0 n && b then 1 else 0) ≡ (if b then n - 1 else n)
less_if n true = ground arith
less_if n false = ground arith

less : (n : ℕ) → n - (if ltb 0 n then 1 else 0) ≡ n - 1
less n = ground arith

pub taken-one_less : (created : ℕ) (d : Host) → take_off (taken created d) d ≡ one_less created d
unfolding take_off taken
taken-one_less created d =
    rw (less d.total_queue_count, less_if d.monthly_queue_count (is_this_month d created))
      (rw (month-counts_for_month d created) refl)
