-- ===== src/Subscription/Provider/Statuses.antt =====
-- internal/modules/billing/provider/dodo.go: no notice brings the status of a grace period, which is
-- the program's own.
use Prim.Native.String.{String}
use queuebuzz.Prelude.{
  ℕ, ◌≡◌, refl, Bool, true, false, Option, none, some, List, [], ◌∷◌, All, get_or, if◌then◌else◌,
  same_text, Bool-cases, inl, inr,
}
use queuebuzz.Queue.Slug.{codes}
use queuebuzz.Subscription.Domain.{
  SubscriptionStatus, active, past_due, is_in_grace, Card, BillingEvent,
}
use queuebuzz.Subscription.Webhook.{Verified, without_host, event}
use queuebuzz.Subscription.Provider.{
  Notice, SubscriptionData, PaymentData, lookup, Switch, subscription_switch, payment_switch,
  subscription_cases, payment_cases, type_of, always, given_or, no_status, with_host,
  parse_payment_event, parse_subscription_event, parse_payment, parse_subscription,
  is_payment_event, is_subscription_event, verify_webhook, of_metadata,
}

lookup-All :
    {A : Type 0} (P : A → Type 0) (t : List ℕ) (cases : List (String × A)) (otherwise : A)
    → All (λ c. P c.1) cases
    → P otherwise
    → P (lookup t cases otherwise)
lookup-All P t [] otherwise hs h = h
lookup-All P t ((name, a) ∷ cases) otherwise (ha, hs) h =
    elim (Bool-cases (same_text t (codes name))) [
      | inl x ↦ rw x ha
      | inr x ↦ rw x (lookup-All P t cases otherwise hs h)
    ]

-- The status that the notice has, if any, is not that of a grace period, which is the program's own.
abbrev pub Foreign : Option SubscriptionStatus → Type 0
Foreign given = is_in_grace (get_or given active) ≡ false

abbrev Safe : Switch → Type 0
Safe s = (given : Option SubscriptionStatus) → Foreign given → is_in_grace (s.1 given) ≡ false

given_or-Foreign :
    (s : SubscriptionStatus)
    → is_in_grace s ≡ false
    → (given : Option SubscriptionStatus) → Foreign given
    → is_in_grace (get_or given s) ≡ false
given_or-Foreign s h none f = h
given_or-Foreign s h (some g) f = f

subscription_switch-Safe : (t : List ℕ) → Safe (subscription_switch t)
subscription_switch-Safe t =
    lookup-All Safe t subscription_cases (type_of t, given_or no_status)
      (
        given_or-Foreign active refl,
        (
          keep,
          (
            given_or-Foreign past_due refl,
            (given_or-Foreign past_due refl, (keep, (given_or-Foreign active refl, (keep, tt)))),
          ),
        ),
      )
      (given_or-Foreign no_status refl)
  where
    keep : (given : Option SubscriptionStatus) → Foreign given → false ≡ false
    keep given f = refl

payment_switch-Safe : (t : List ℕ) → Safe (payment_switch t)
payment_switch-Safe t =
    lookup-All Safe t payment_cases (type_of t, always no_status)
      ((λ g f. refl), ((λ g f. refl), tt)) (λ g f. refl)

abbrev pub Fine : Verified → Type 0
Fine (event e) = is_in_grace e.status ≡ false
Fine _ = Unit

with_host-Fine :
    (h : Option ℕ) (f : ℕ → BillingEvent)
    → ((i : ℕ) → is_in_grace (f i).status ≡ false)
    → Fine (with_host h f)
with_host-Fine none f k = tt
with_host-Fine (some h) f k = k h

abbrev pub ForeignData : Option SubscriptionData → Type 0
ForeignData none = Unit
ForeignData (some d) = Foreign d.status

parse_payment-Fine : (t : List ℕ) (d : Option PaymentData) → Fine (parse_payment t d)
unfolding parse_payment_event
parse_payment-Fine t none = tt
parse_payment-Fine t (some d) =
    with_host-Fine (of_metadata (λ m. m.host_id) d.metadata) (parse_payment_event t d)
      (λ i. payment_switch-Safe t none refl)

parse_subscription-Fine :
    (t : List ℕ) (d : Option SubscriptionData) (details : Option (Option Card))
    → ForeignData d
    → Fine (parse_subscription t d details)
unfolding parse_subscription_event
parse_subscription-Fine t none details f = tt
parse_subscription-Fine t (some d) details f =
    with_host-Fine (of_metadata (λ m. m.host_id) d.metadata) (parse_subscription_event t d details)
      (λ i. subscription_switch-Safe t d.status f)

pub verify_webhook-Fine :
    (n : Notice) (details : Option (Option Card))
    → ForeignData n.subscription
    → Fine (verify_webhook (some n) details)
unfolding verify_webhook
verify_webhook-Fine n details f = elim (Bool-cases (is_payment_event n.type)) [
  | inl x ↦ rw x (parse_payment-Fine n.type n.payment)
  | inr x ↦ rw x (rest (is_subscription_event n.type))
]
  where
    rest :
        (b : Bool)
        → Fine (if b then parse_subscription n.type n.subscription details else without_host)
    rest true = parse_subscription-Fine n.type n.subscription details f
    rest false = tt
