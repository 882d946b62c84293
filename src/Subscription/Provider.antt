-- ===== src/Subscription/Provider.antt =====
-- internal/modules/billing/provider/dodo.go: what the program makes of a notice of the payment
-- service, and of a plan for a checkout. Signatures and JSON are read by libraries, so a notice is an
-- argument: its type as bytes and its data as a record, in which an empty text and a time that cannot
-- be parsed are `none`. A status text is the status that it is cast to. The client's calls are
-- arguments, too.
pub mod Statuses
pub mod Reading
pub mod Delivery
pub mod Message
pub mod Mandate
use Prim.Native.String.{String}
use queuebuzz.Prelude.{
  ℕ, ◌+◌, ◌*◌, ◌/◌, Bool, true, false, ◌&&◌, Option, none, some, List, [], ◌∷◌, length, take,
  get_or, ltb, ◌==◌, if◌then◌else◌, same_text,
}
use queuebuzz.Queue.Slug.{codes}
use queuebuzz.Subscription.Domain.{
  Plan, SubscriptionStatus, active, past_due, canceled, BillingCycle, monthly, yearly, is_yearly,
  Card, EventType, BillingEvent,
}
use queuebuzz.Subscription.Webhook.{Verified, bad_signature, without_host, event}

-- The texts that the checkout has left with the payment service.
pub record Metadata : Type 0 where
  pub host_id : Option ℕ
  pub plan_id : Option ℕ
  pub billing_cycle : Option BillingCycle

pub record PaymentData : Type 0 where
  pub payment_id : Option ℕ
  pub subscription_id : Option ℕ
  pub total_amount : ℕ
  pub settlement_amount : ℕ
  pub currency : String
  pub customer_id : Option ℕ
  pub metadata : Option Metadata
  pub card : Option Card

pub record SubscriptionData : Type 0 where
  pub subscription_id : Option ℕ
  pub status : Option SubscriptionStatus
  pub currency : String
  pub recurring_pre_tax_amount : ℕ
  pub next_billing_date : Option ℕ
  pub previous_billing_date : Option ℕ
  pub cancel_at_next_billing_date : Bool
  pub cancellation_comment : Option String
  pub cancellation_feedback : Option String
  pub cancelled_at : Option ℕ
  -- `payment_frequency_interval` is "Year"
  pub has_yearly_interval : Bool
  pub customer_id : Option ℕ
  pub metadata : Option Metadata

-- The data of a notice is decoded by one record or the other; `none` is an error of the decoder.
pub record Notice : Type 0 where
  pub type : List ℕ
  pub payment : Option PaymentData
  pub subscription : Option SubscriptionData

-- The empty status text.
abbrev pub no_status : SubscriptionStatus
no_status = SubscriptionStatus.other 0

abbrev pub lookup {ℓ} : {A : Type ℓ} → List ℕ → List (String × A) → A → A
lookup t [] otherwise = otherwise
lookup t ((name, a) ∷ rest) otherwise =
    if same_text t (codes name) then a else lookup t rest otherwise

-- The constants of internal/modules/billing/domain/event.go, which `ProcessBillingEvent` compares to.
abbrev pub type_of : List ℕ → EventType
type_of t =
    lookup t
      (("payment.succeeded", EventType.payment_succeeded)
        ∷ ("payment.failed", EventType.payment_failed)
        ∷ ("subscription.active", EventType.subscription_active)
        ∷ ("subscription.renewed", EventType.subscription_renewed)
        ∷ ("subscription.failed", EventType.subscription_failed)
        ∷ ("subscription.cancelled", EventType.subscription_cancelled)
        ∷ ("subscription.pending", EventType.subscription_pending)
        ∷ ("subscription.updated", EventType.subscription_updated)
        ∷ [])
      EventType.unknown

abbrev is_type : ℕ → String → List ℕ → Bool
is_type n prefix t = ltb n (length t) && same_text (take n t) (codes prefix)

unfoldable pub is_payment_event : List ℕ → Bool
is_payment_event t = is_type 8 "payment." t

unfoldable pub is_subscription_event : List ℕ → Bool
is_subscription_event t = is_type 13 "subscription." t

-- The case of the switch on the type of a notice, with the type and the status that it sets; the
-- status that the notice has is an argument.
abbrev pub Switch : Type 0
Switch = EventType × (Option SubscriptionStatus → SubscriptionStatus)

abbrev pub always : SubscriptionStatus → Option SubscriptionStatus → SubscriptionStatus
always s given = s

abbrev pub given_or : SubscriptionStatus → Option SubscriptionStatus → SubscriptionStatus
given_or s given = get_or given s

abbrev pub subscription_cases : List (String × Switch)
subscription_cases =
    ("subscription.active", (EventType.subscription_active, given_or active))
    ∷ ("subscription.renewed", (EventType.subscription_renewed, always active))
    ∷ ("subscription.failed", (EventType.subscription_failed, given_or past_due))
    ∷ ("subscription.on_hold", (EventType.subscription_failed, given_or past_due))
    ∷ ("subscription.cancelled", (EventType.subscription_cancelled, always canceled))
    ∷ ("subscription.updated", (EventType.subscription_updated, given_or active))
    ∷ ("subscription.expired", (EventType.subscription_cancelled, always canceled))
    ∷ []

abbrev pub subscription_switch : List ℕ → Switch
subscription_switch t = lookup t subscription_cases (type_of t, given_or no_status)

abbrev pub payment_cases : List (String × Switch)
payment_cases =
    ("payment.succeeded", (EventType.payment_succeeded, always active))
    ∷ ("payment.failed", (EventType.payment_failed, always past_due))
    ∷ []

abbrev pub payment_switch : List ℕ → Switch
payment_switch t = lookup t payment_cases (type_of t, always no_status)

abbrev pub of_metadata {ℓ} : {A : Type ℓ} → (Metadata → Option A) → Option Metadata → Option A
of_metadata f none = none
of_metadata f (some m) = f m

-- The host of the event is given.
unfoldable pub parse_payment_event : List ℕ → PaymentData → ℕ → BillingEvent
parse_payment_event t d host =
    let (type, status) = payment_switch t in
    record {
      type = type;
      host_id = host;
      plan_id = of_metadata (λ m. m.plan_id) d.metadata;
      billing_cycle = of_metadata (λ m. m.billing_cycle) d.metadata;
      status = status none;
      provider_id = d.subscription_id;
      subscription_id = d.subscription_id;
      provider_customer_id = d.customer_id;
      provider_payment_id = d.payment_id;
      amount = d.settlement_amount;
      total_amount = d.total_amount;
      currency = d.currency;
      current_period_end = none;
      previous_billing_date = none;
      cancel_at_period_end = false;
      cancellation_comment = none;
      cancellation_feedback = none;
      cancelled_at = none;
      card = d.card;
    }

abbrev pub cycle_of : Bool → Option BillingCycle → Option BillingCycle
cycle_of by_year none = some (if by_year then yearly else monthly)
cycle_of by_year (some c) = some c

-- `details` is the card that `GetSubscription` gives, unless it fails.
unfoldable pub parse_subscription_event :
    List ℕ → SubscriptionData → Option (Option Card) → ℕ → BillingEvent
parse_subscription_event t d details host =
    let (type, status) = subscription_switch t in
    record {
      type = type;
      host_id = host;
      plan_id = of_metadata (λ m. m.plan_id) d.metadata;
      billing_cycle =
          cycle_of d.has_yearly_interval (of_metadata (λ m. m.billing_cycle) d.metadata);
      status = status d.status;
      provider_id = d.subscription_id;
      subscription_id = d.subscription_id;
      provider_customer_id = d.customer_id;
      provider_payment_id = none;
      amount = d.recurring_pre_tax_amount;
      total_amount = d.recurring_pre_tax_amount;
      currency = d.currency;
      current_period_end = d.next_billing_date;
      previous_billing_date = d.previous_billing_date;
      cancel_at_period_end = d.cancel_at_next_billing_date;
      cancellation_comment = d.cancellation_comment;
      cancellation_feedback = d.cancellation_feedback;
      cancelled_at = d.cancelled_at;
      card = get_or details none;
    }

-- `HandleWebhook` asks for the host.
abbrev pub with_host : Option ℕ → (ℕ → BillingEvent) → Verified
with_host none f = without_host
with_host (some h) f = event (f h)

abbrev pub parse_payment : List ℕ → Option PaymentData → Verified
parse_payment t none = bad_signature
parse_payment t (some d) =
    with_host (of_metadata (λ m. m.host_id) d.metadata) (parse_payment_event t d)

abbrev pub parse_subscription : List ℕ → Option SubscriptionData → Option (Option Card) → Verified
parse_subscription t none details = bad_signature
parse_subscription t (some d) details =
    with_host (of_metadata (λ m. m.host_id) d.metadata) (parse_subscription_event t d details)

-- A notice whose signature was verified by the library; `none` is a wrong signature, no key, or no
-- JSON. All errors are answered the same.
unfoldable pub verify_webhook : Option Notice → Option (Option Card) → Verified
verify_webhook none details = bad_signature
verify_webhook (some n) details =
    if is_payment_event n.type
    then parse_payment n.type n.payment
    else (if is_subscription_event n.type
        then parse_subscription n.type n.subscription details
        else without_host)

pub record PaymentMethod : Type 0 where
  pub id : ℕ
  pub card : Card

-- `GetSubscription` finds the card of a subscription among the payment methods of its customer.
unfoldable pub card_of : ℕ → List PaymentMethod → Option Card
card_of i [] = none
card_of i (m ∷ ms) = if m.id == i then some m.card else card_of i ms

-- The prices lie far below `2 ^ 63 / 30`.
abbrev pub rbi_max_paise : ℕ
rbi_max_paise = 1500000

abbrev at_most : ℕ → ℕ → ℕ
at_most top n = if ltb top n then top else n

unfoldable pub mandate_floor_for_plan : ℕ → ℕ → Option BillingCycle → ℕ
mandate_floor_for_plan monthly_price yearly_price cycle =
    let price = if is_yearly cycle then yearly_price else monthly_price in
    if price == 0 then 0 else at_most rbi_max_paise (price + price * 30 / 100)

pub data PaymentMethodType : Type 0 where
  upi_collect credit debit : PaymentMethodType

-- What the plan's country and currency set in the request for a checkout; the country GLOBAL and
-- the empty one are `none`.
pub record BillingConfig : Type 0 where
  pub country : ℕ
  pub currency : Option String
  pub methods : List PaymentMethodType
  pub mandate_min : Option ℕ

abbrev positive : ℕ → Option ℕ
positive n = if n == 0 then none else some n

unfoldable pub billing_config :
    ℕ → Option ℕ → Option String → Plan → Option BillingCycle → Option BillingConfig
billing_config india none currency plan cycle = none
billing_config india (some country) currency plan cycle = some (record {
  country = country;
  currency = currency;
  methods =
      if country == india
      then PaymentMethodType.upi_collect ∷ PaymentMethodType.credit ∷ PaymentMethodType.debit ∷ []
      else PaymentMethodType.credit ∷ PaymentMethodType.debit ∷ [];
  mandate_min =
      if country == india
      then positive (mandate_floor_for_plan plan.monthly_price plan.yearly_price cycle)
      else none;
})
