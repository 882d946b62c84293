-- ===== src/Subscription/Provider/Mandate.antt =====
-- `mandateFloorForPlan` of internal/modules/billing/provider/dodo.go: what a mandate covers.
use queuebuzz.Prelude.{ℕ, ◌≤◌, Option, Bool-cases, inl, inr, if◌then◌else◌, arith}
use queuebuzz.Subscription.Domain.{BillingCycle, is_yearly}
use queuebuzz.Subscription.Provider.{mandate_floor_for_plan, rbi_max_paise}

-- The floor stays within the limit, and covers every price within it.
mandate_floor_for_plan-bounds :
    (monthly_price yearly_price : ℕ) (cycle : Option BillingCycle)
    → let price = if is_yearly cycle then yearly_price else monthly_price in
      let floor = mandate_floor_for_plan monthly_price yearly_price cycle in
      (floor ≤ rbi_max_paise) × (price ≤ rbi_max_paise → price ≤ floor)
unfolding mandate_floor_for_plan
mandate_floor_for_plan-bounds monthly_price yearly_price cycle =
    elim (Bool-cases (is_yearly cycle)) [
      | inl x ↦ rw x (ground arith, λ h. ground (arith, h))
      | inr x ↦ rw x (ground arith, λ h. ground (arith, h))
    ]
