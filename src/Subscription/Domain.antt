-- ===== src/Subscription/Domain.antt =====
-- internal/modules/billing/domain, and the events of internal/modules/billing/provider/payment.go.
-- Identifiers and tiers are opaque numbers, compared for equality only; an empty text is `none`. A
-- limit that is not positive is 0, and means that there is none.
use Prim.Native.String.{String}
use queuebuzz.Prelude.{ℕ, Bool, true, false, Option}

abbrev pub free_tier : ℕ
free_tier = 0

abbrev pub enterprise_tier : ℕ
enterprise_tier = 3

pub record Plan : Type 0 where
  pub id : ℕ
  pub slug : String
  pub tier : ℕ
  pub name : String
  pub is_free : Bool
  pub currency : String
  pub monthly_price : ℕ
  pub yearly_price : ℕ
  pub monthly_product_id : Option ℕ
  pub yearly_product_id : Option ℕ
  pub trial_enabled : Bool
  pub trial_duration_days : ℕ
  pub trial_access_token : Option ℕ
  pub queue_expiry_hours : ℕ
  pub max_queues_per_month : ℕ
  pub max_guests_per_queue : ℕ
  pub history_access : Bool
  pub can_view_guest_data : Bool
  pub history_retention_days : ℕ

pub data BillingCycle : Type 0 where
  monthly yearly : BillingCycle

-- The provider's own statuses are texts that the program does not know.
pub data SubscriptionStatus : Type 0 where
  active past_due canceled in_grace pending : SubscriptionStatus
  other : ℕ → SubscriptionStatus

pub record Card : Type 0 where
  pub last4 : String
  pub brand : String
  pub expiry : String

pub record Subscription : Type 0 where
  pub host_id : ℕ
  pub plan_id : Option ℕ
  pub status : SubscriptionStatus
  pub provider_subscription_id : Option ℕ
  pub provider_customer_id : Option ℕ
  pub billing_cycle : Option BillingCycle
  pub grace_period_until : Option ℕ
  pub current_period_end : ℕ
  pub cancel_at_period_end : Bool
  pub cancellation_comment : Option String
  pub cancellation_feedback : Option String
  pub cancelled_at : Option ℕ
  pub card : Option Card
  pub renewal_reminder_sent_at : Option ℕ
  pub created_at : ℕ
  pub updated_at : ℕ

pub data TransactionStatus : Type 0 where
  pending succeeded failed : TransactionStatus

pub data FailureReason : Type 0 where
  none payment_failed subscription_failed cancelled : FailureReason

pub record Transaction : Type 0 where
  pub id : ℕ
  pub host_id : ℕ
  pub plan_id : Option ℕ
  pub billing_cycle : Option BillingCycle
  pub amount : ℕ
  pub total_amount : ℕ
  pub currency : String
  pub status : TransactionStatus
  pub provider_payment_id : Option ℕ
  pub failure_reason : FailureReason
  pub created_at : ℕ

-- An invoice, for a payment that succeeded.
pub record BillingRecord : Type 0 where
  pub id : ℕ
  pub transaction_id : ℕ
  pub host_id : ℕ
  pub plan_id : Option ℕ
  pub plan_name : String
  pub billing_cycle : Option BillingCycle
  pub amount : ℕ
  pub currency : String
  pub billed_at : ℕ

pub data EventType : Type 0 where
  payment_succeeded payment_failed : EventType
  subscription_active subscription_renewed subscription_failed : EventType
  subscription_cancelled subscription_pending subscription_updated : EventType
  unknown : EventType

pub record BillingEvent : Type 0 where
  pub type : EventType
  pub host_id : ℕ
  pub plan_id : Option ℕ
  pub billing_cycle : Option BillingCycle
  pub status : SubscriptionStatus
  pub provider_id : Option ℕ
  pub subscription_id : Option ℕ
  pub provider_customer_id : Option ℕ
  pub provider_payment_id : Option ℕ
  pub amount : ℕ
  pub total_amount : ℕ
  pub currency : String
  pub current_period_end : Option ℕ
  pub previous_billing_date : Option ℕ
  pub cancel_at_period_end : Bool
  pub cancellation_comment : Option String
  pub cancellation_feedback : Option String
  pub cancelled_at : Option ℕ
  pub card : Option Card

-- What the program asks the mail service to send, and to whom. The name of a plan that is not
-- found is `none`; the program writes its identifier instead.
pub data Mail : Type 0 where
  purchase_confirmation : ℕ → Option String → Option BillingCycle → ℕ → String → Mail
  payment_failed_mail : ℕ → Option String → Option BillingCycle → Mail
  subscription_renewed_mail : ℕ → Option String → Option BillingCycle → ℕ → String → Mail
  subscription_cancelled_mail : ℕ → Option String → Mail
  subscription_pending_mail : ℕ → Option String → Mail
  renewal_reminder : ℕ → Option String → ℕ → ℕ → String → Mail

abbrev pub is_active : SubscriptionStatus → Bool
is_active active = true
is_active _ = false

abbrev pub is_in_grace : SubscriptionStatus → Bool
is_in_grace in_grace = true
is_in_grace _ = false

abbrev pub is_canceled : SubscriptionStatus → Bool
is_canceled canceled = true
is_canceled _ = false

abbrev pub is_pending : SubscriptionStatus → Bool
is_pending pending = true
is_pending _ = false

abbrev pub is_yearly : Option BillingCycle → Bool
is_yearly (Option.some yearly) = true
is_yearly _ = false
