-- ===== src/Subscription/Frame.antt =====
-- Which calls of internal/modules/billing/service/billing_service.go leave the subscriptions, the
-- plans and their cache alone.
use queuebuzz.Prelude.{ℕ, refl, Bool, true, false, Option, none, some, List, [], ◌∷◌}
use queuebuzz.Net.{Reply, ok, err, duplicate_key, ◌>>◌, pure, attempt, read}
use queuebuzz.Net.Ends.{
  Succeeds, Stays, Finishes, stays_rules, Finishes-pure, Finishes-attempt, Finishes-bind,
  Finishes-then, Finishes-local, if-Outcome, Stays-bind, Stays-finished, Stays-request,
}
use queuebuzz.Queue.Domain.{Queue}
use queuebuzz.Queue.World.{Backend, World, Settings}
use queuebuzz.Queue.Opening.{extend_queue_keys_expiry}
use queuebuzz.Billing.{get_host, reset_monthly_limits}
use queuebuzz.Subscription.Domain.{Plan, Transaction, BillingRecord, Mail}
use queuebuzz.Subscription.Changes.{paid_expiry_hours}
use queuebuzz.Subscription.Plans.{get_plan_by_id, set_tier}
use queuebuzz.Subscription.Events.{
  insert_transaction, insert_record, send_mail, send, send_if, has_existing_subscription,
  get_host_email, get_host_plan_name, is_open_of, extend_queue, extend_each,
  extend_active_queues_expiry, extend_if_paid, sync_tier, sync_plan,
}

-- What a host's plan depends on.
pub record Accounts (B : Backend) : Type 0 where
  pub subscriptions : B.subscriptions.Col
  pub plans : B.plans.Col
  pub plan_caches : B.plan_caches.Keys
  pub settings : Option Settings
  pub now : ℕ

module _ (B : Backend) where
  abbrev pub accounts : World B → Accounts B
  accounts w = record {
    subscriptions = w.subscriptions;
    plans = w.plans;
    plan_caches = w.plan_caches;
    settings = w.settings;
    now = w.now;
  }

  -- Calls that leave them alone.
  module _ (P : Accounts B → Type 0) where
    abbrev pub On : World B → Type 0
    On w = P (accounts w)

    pub get_host_email-Stays : (h : ℕ) → Stays On (get_host_email B h)
    unfolding get_host_email get_host
    get_host_email-Stays h = search stays_rules

    pub get_host_plan_name-Finishes : (i : Option ℕ) → Finishes On (get_host_plan_name B i)
    unfolding get_host_plan_name get_plan_by_id
    get_host_plan_name-Finishes i = search stays_rules

    pub has_existing_subscription-Finishes : (h : ℕ) → Finishes On (has_existing_subscription B h)
    unfolding has_existing_subscription
    has_existing_subscription-Finishes h = search stays_rules

    send-On : (to : Option ℕ) (m : ℕ → Mail) (w : World B) → On w → On (send B to m w)
    send-On none m w h = h
    send-On (some i) m w h = h

    pub send_mail-Finishes : (to : Option ℕ) (m : ℕ → Mail) → Finishes On (send_mail B to m)
    unfolding send_mail
    send_mail-Finishes to m = Finishes-local On (send B to m) (send-On to m)

    pub send_if-Finishes :
        (b : Bool) (to : Option ℕ) (m : ℕ → Mail) → Finishes On (send_if B b to m)
    send_if-Finishes true to m = send_mail-Finishes to m
    send_if-Finishes false to m = Finishes-pure On tt

    pub set_tier-Finishes : (h tier : ℕ) → Finishes On (attempt (set_tier B h tier))
    set_tier-Finishes h tier = search stays_rules

    pub reset-Finishes : (h : ℕ) → Finishes On (attempt (reset_monthly_limits B h) >> pure tt)
    unfolding reset_monthly_limits
    reset-Finishes h = search stays_rules

    pub insert_transaction-Finishes :
        (t : ℕ → Transaction) → Finishes On (attempt (insert_transaction B t))
    insert_transaction-Finishes t = Finishes-attempt On _ (
        Stays-request On _
          (λ w h. inserted w (B.transactions.insert_one (t w.now) w.transactions) h))
      where
        inserted :
            (w : World B) (o : Option B.transactions.Col)
            → On w
            → On
                (elim o as (λ x. Reply (Unit {0}) × World B) [
                  | none ↦ (err duplicate_key, w)
                  | some c ↦ (ok tt, record w { transactions = c })
                ]).1
        inserted w none h = h
        inserted w (some c) h = h

    pub insert_record-Finishes : (r : ℕ → BillingRecord) → Finishes On (attempt (insert_record B r))
    insert_record-Finishes r = Finishes-attempt On _ (
        Stays-request On _
          (λ w h. inserted w (B.billing_records.insert_one (r w.now) w.billing_records) h))
      where
        inserted :
            (w : World B) (o : Option B.billing_records.Col)
            → On w
            → On
                (elim o as (λ x. Reply (Unit {0}) × World B) [
                  | none ↦ (err duplicate_key, w)
                  | some c ↦ (ok tt, record w { billing_records = c })
                ]).1
        inserted w none h = h
        inserted w (some c) h = h

    pub get_plan_by_id-Finishes : (i : Option ℕ) → Finishes On (attempt (get_plan_by_id B i))
    unfolding get_plan_by_id
    get_plan_by_id-Finishes i = search stays_rules

    extend_keys-Finishes : (code : Option ℕ) → Finishes On (extend_queue_keys_expiry B code)
    unfolding extend_queue_keys_expiry
    extend_keys-Finishes none = search stays_rules
    extend_keys-Finishes (some code) = search stays_rules

    extend_queue-Finishes : (hours : ℕ) (q : Queue) → Finishes On (extend_queue B hours q)
    unfolding extend_queue
    extend_queue-Finishes hours q = Finishes-bind On _ _ (search stays_rules) (λ updated s h.
        if-Outcome (Succeeds (λ a. On)) _ _ _ (extend_keys-Finishes q.join_code s h)
          (ok tt, s, refl, h))

    extend_each-Finishes : (hours : ℕ) (qs : List Queue) → Finishes On (extend_each B hours qs)
    extend_each-Finishes hours [] = Finishes-pure On tt
    extend_each-Finishes hours (q ∷ qs) =
        Finishes-then On _ _ (extend_queue-Finishes hours q) (extend_each-Finishes hours qs)

    extend_queues-Stays : (h : ℕ) (p : Plan) → Stays On (extend_active_queues_expiry B h p)
    unfolding extend_active_queues_expiry
    extend_queues-Stays h p s a =
        if-Outcome (λ r. On) p.is_free _ _ (ok tt, s, refl, a)
          (Stays-bind On (read (λ w. B.queues.find (is_open_of B h) w.queues))
            (extend_each B (paid_expiry_hours p)) (search stays_rules)
            (λ qs.
              Stays-finished On (extend_each B (paid_expiry_hours p) qs)
                (extend_each-Finishes (paid_expiry_hours p) qs))
            s a)

    pub extend_if_paid-Finishes : (h : ℕ) (p : Option Plan) → Finishes On (extend_if_paid B h p)
    extend_if_paid-Finishes h none = Finishes-pure On tt
    extend_if_paid-Finishes h (some p) =
        Finishes-then On _ _ (Finishes-attempt On _ (extend_queues-Stays h p)) (Finishes-pure On tt)

    pub sync_tier-Finishes : (h : ℕ) (p : Option Plan) → Finishes On (sync_tier B h p)
    sync_tier-Finishes h none = Finishes-pure On tt
    sync_tier-Finishes h (some p) =
        Finishes-then On _ _ (set_tier-Finishes h p.tier) (extend_if_paid-Finishes h (some p))

    pub sync_plan-Finishes : (h : ℕ) (i : Option ℕ) → Finishes On (sync_plan B h i)
    sync_plan-Finishes h none = Finishes-pure On tt
    sync_plan-Finishes h (some i) =
        Finishes-bind On _ _ (get_plan_by_id-Finishes (some i)) (sync_tier-Finishes h)
