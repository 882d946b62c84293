-- ===== src/Subscription/Records.antt =====
-- Whatever the fates of the calls: which handlers of
-- internal/modules/billing/service/billing_service.go leave the billing records alone, and that all
-- leave the deliveries of internal/modules/billing/http/handler.go alone.
use Prim.Native.String.{String}
use queuebuzz.Prelude.{
  ℕ, ◌≡◌, refl, Bool, true, false, Option, none, some, List, [], ◌∷◌, if◌then◌else◌, is_some, ◌&&◌,
  ltb, Bool-cases, Option-cases, inl, inr,
}
use queuebuzz.Net.{Reply, ok, err, duplicate_key, ◌>>◌, pure, attempt, observe, read}
use queuebuzz.Net.Keeps.{
  Keeps, Keeps-pure, Keeps-bind, Keeps-then, Keeps-request, Keeps-attempt, keeps_rules,
}
use queuebuzz.Queue.Domain.{Queue}
use queuebuzz.Queue.World.{Backend, World, Call}
use queuebuzz.Queue.Opening.{extend_queue_keys_expiry, expiry_after}
use queuebuzz.Billing.{get_host, reset_monthly_limits}
use queuebuzz.Subscription.Domain.{Plan, Subscription, BillingEvent, Transaction, EventType, Mail}
use queuebuzz.Subscription.Changes.{paid, paid_expiry_hours, starts_period, blank}
use queuebuzz.Subscription.Plans.{
  get_plan_by_id, invalidate_host_plan_cache, set_tier, downgrade_host_tier,
}
use queuebuzz.Subscription.Events.{
  insert_transaction, upsert_subscription, update_matched, send_mail, send, send_if,
  has_existing_subscription, get_host_email, get_host_plan_name, handle_failed_payment,
  handle_cancellation, is_open_of, extend_queue, extend_each, extend_active_queues_expiry,
  extend_if_paid, handle_subscription_state_update, sync_tier, sync_plan,
  handle_subscription_updated, then_send, renew, route_event,
}

module _ (B : Backend) (P : B.billing_records.Col → B.webhooks.Keys → Type 0) where
  abbrev pub On : World B → Type 0
  On w = P w.billing_records w.webhooks

  pub get_host_email-Keeps : (h : ℕ) → Keeps On (get_host_email B h)
  unfolding get_host_email get_host
  get_host_email-Keeps h = search keeps_rules

  pub get_plan-Keeps : (i : Option ℕ) → Keeps On (attempt (get_plan_by_id B i))
  unfolding get_plan_by_id
  get_plan-Keeps i = search keeps_rules

  pub get_name-Keeps : (i : Option ℕ) → Keeps On (get_host_plan_name B i)
  unfolding get_host_plan_name get_plan_by_id
  get_name-Keeps i = search keeps_rules

  pub existing-Keeps : (h : ℕ) → Keeps On (has_existing_subscription B h)
  unfolding has_existing_subscription
  existing-Keeps h = search keeps_rules

  pub invalidate-Keeps : (h : ℕ) → Keeps On (invalidate_host_plan_cache B h)
  unfolding invalidate_host_plan_cache
  invalidate-Keeps h = search keeps_rules

  reset-Keeps : (h : ℕ) → Keeps On (attempt (reset_monthly_limits B h) >> pure tt)
  unfolding reset_monthly_limits
  reset-Keeps h = search keeps_rules

  send-On : (to : Option ℕ) (m : ℕ → Mail) (w : World B) → On w → On (send B to m w)
  send-On none m w h = h
  send-On (some i) m w h = h

  send_mail-Keeps : (to : Option ℕ) (m : ℕ → Mail) → Keeps On (send_mail B to m)
  unfolding send_mail
  send_mail-Keeps to m n h = send-On to m n.state h

  if-Keeps :
      {A : Type 0} (b : Bool) (m k : Call B A)
      → Keeps On m
      → Keeps On k
      → Keeps On (if b then m else k)
  if-Keeps true m k hm hk = hm
  if-Keeps false m k hm hk = hk

  pub send_if-Keeps : (b : Bool) (to : Option ℕ) (m : ℕ → Mail) → Keeps On (send_if B b to m)
  send_if-Keeps b to m = if-Keeps b _ _ (send_mail-Keeps to m) (Keeps-pure On tt)

  pub insert_transaction-Keeps : (t : ℕ → Transaction) → Keeps On (attempt (insert_transaction B t))
  insert_transaction-Keeps t = Keeps-attempt On _ (
      Keeps-request On _ (λ w h. inserted w (B.transactions.insert_one (t w.now) w.transactions) h))
    where
      inserted :
          (w : World B) (o : Option B.transactions.Col)
          → On w
          → On
              (elim o as (λ x. Reply (Unit {0}) × World B) [
                | none ↦ (err duplicate_key, w)
                | some c ↦ (ok tt, record w { transactions = c })
              ]).1
      inserted w none h = h
      inserted w (some c) h = h

  matched-Keeps : (h : ℕ) (f : ℕ → Subscription → Subscription) → Keeps On (update_matched B h f)
  unfolding update_matched
  matched-Keeps h f = Keeps-request On _ (λ w p. p)

  pub upsert-Keeps :
      (h : ℕ) (plan : Option ℕ) (f : ℕ → Subscription → Subscription)
      → Keeps On (upsert_subscription B h plan f)
  unfolding upsert_subscription
  upsert-Keeps h plan f = Keeps-request On _ (λ w p.
      elim (Option-cases (B.subscriptions.find_one h w.subscriptions)) [
        | inl x ↦
            elim (Option-cases
              (B.subscriptions.insert_one (f w.now (blank h plan w.now)) w.subscriptions)) [
                | inl y ↦ rw (x, y) p
                | inr (c, y) ↦ rw (x, y) p
              ]
        | inr (d, x) ↦ rw x p
      ])

  pub tier-Keeps : (h tier : ℕ) → Keeps On (attempt (set_tier B h tier))
  tier-Keeps h tier = search keeps_rules

  extend_keys-Keeps : (code : Option ℕ) → Keeps On (extend_queue_keys_expiry B code)
  unfolding extend_queue_keys_expiry
  extend_keys-Keeps none = search keeps_rules
  extend_keys-Keeps (some code) = search keeps_rules

  extend_queue-Keeps : (hours : ℕ) (q : Queue) → Keeps On (extend_queue B hours q)
  unfolding extend_queue
  extend_queue-Keeps hours q = Keeps-bind On _ _ (search keeps_rules) (λ updated n h.
      elim (Bool-cases (is_some updated && ltb n.state.now (expiry_after hours n.state.now q))) [
        | inl x ↦ rw x (extend_keys-Keeps q.join_code n h)
        | inr x ↦ rw x h
      ])

  extend_each-Keeps : (hours : ℕ) (qs : List Queue) → Keeps On (extend_each B hours qs)
  extend_each-Keeps hours [] = Keeps-pure On tt
  extend_each-Keeps hours (q ∷ qs) =
      Keeps-then On _ _ (extend_queue-Keeps hours q) (extend_each-Keeps hours qs)

  extend_queues-Keeps : (h : ℕ) (p : Plan) → Keeps On (extend_active_queues_expiry B h p)
  unfolding extend_active_queues_expiry
  extend_queues-Keeps h p n a = elim (Bool-cases p.is_free) [
    | inl x ↦ rw x a
    | inr x ↦ rw x (
        Keeps-bind On (read (λ w. B.queues.find (is_open_of B h) w.queues))
          (extend_each B (paid_expiry_hours p)) (search keeps_rules)
          (extend_each-Keeps (paid_expiry_hours p)) n a)
  ]

  pub extend_if_paid-Keeps : (h : ℕ) (p : Option Plan) → Keeps On (extend_if_paid B h p)
  extend_if_paid-Keeps h none = Keeps-pure On tt
  extend_if_paid-Keeps h (some p) =
      Keeps-then On _ _ (Keeps-attempt On _ (extend_queues-Keeps h p)) (Keeps-pure On tt)

  sync_plan-Keeps : (h : ℕ) (i : Option ℕ) → Keeps On (sync_plan B h i)
  sync_plan-Keeps h none = Keeps-pure On tt
  sync_plan-Keeps h (some i) = Keeps-bind On _ _ (get_plan-Keeps (some i)) synced
    where
      synced : (p : Option Plan) → Keeps On (sync_tier B h p)
      synced none = Keeps-pure On tt
      synced (some p) = Keeps-then On _ _ (tier-Keeps h p.tier) (extend_if_paid-Keeps h (some p))

  failed-Keeps : (id : ℕ) (e : BillingEvent) → Keeps On (handle_failed_payment B id e)
  unfolding handle_failed_payment
  failed-Keeps id e n h =
      Keeps-then On _ _ (insert_transaction-Keeps _)
        (Keeps-bind On _ _ (matched-Keeps e.host_id _)
          (λ matched. if-Keeps matched _ _ (invalidate-Keeps e.host_id) (Keeps-pure On tt)))
        n h

  cancelled-Keeps : (id : ℕ) (e : BillingEvent) → Keeps On (handle_cancellation B id e)
  unfolding handle_cancellation downgrade_host_tier
  cancelled-Keeps id e = Keeps-then On _ _ (insert_transaction-Keeps _) (
      Keeps-then On _ _ (search keeps_rules)
        (Keeps-then On _ _ (search keeps_rules) (invalidate-Keeps e.host_id)))

  state-Keeps :
      (e : BillingEvent) (to : Option ℕ) (name : Option String)
      → Keeps On (handle_subscription_state_update B e to name)
  unfolding handle_subscription_state_update
  state-Keeps e to name = Keeps-then On _ _ (upsert-Keeps e.host_id e.plan_id _) (
      Keeps-then On _ _
        (if-Keeps (starts_period e.type) _ _ (reset-Keeps e.host_id) (Keeps-pure On tt))
        (Keeps-then On _ _ (send_if-Keeps _ to _) (send_if-Keeps _ to _)))

  updated-Keeps : (e : BillingEvent) → Keeps On (handle_subscription_updated B e)
  unfolding handle_subscription_updated
  updated-Keeps e =
      Keeps-then On _ _ (search keeps_rules)
        (Keeps-then On _ _ (sync_plan-Keeps e.host_id e.plan_id) (invalidate-Keeps e.host_id))

  then_send-Keeps :
      (m : Call B (Unit {0})) (to : Option ℕ) (mail : ℕ → Mail)
      → Keeps On m
      → Keeps On (then_send B m to mail)
  unfolding observe
  then_send-Keeps m to mail hm =
      Keeps-bind On (observe m) _ (λ n h. hm n h)
        (λ r. Keeps-then On _ _ (send_mail-Keeps to mail) (λ n h. h))

  renew-Keeps :
      (e : BillingEvent) (to : Option ℕ) (name : Option String) (previous : Option ℕ)
      → Keeps On (renew B e to name previous)
  renew-Keeps e to name none = Keeps-pure On tt
  renew-Keeps e to name (some previous) = state-Keeps e to name

  -- The branches, but for that of a payment that succeeded.
  pub route-Keeps :
      (tx id : ℕ) (e : BillingEvent) (to : Option ℕ) (name : Option String) (existing : Bool)
      (t : EventType)
      → (t ≡ EventType.payment_succeeded
          → Keeps On (route_event B tx id e to name existing EventType.payment_succeeded))
      → Keeps On (route_event B tx id e to name existing t)
  unfolding route_event
  route-Keeps tx id e to name existing EventType.payment_succeeded paid = paid refl
  route-Keeps tx id e to name existing EventType.payment_failed paid =
      then_send-Keeps _ to _ (failed-Keeps tx e)
  route-Keeps tx id e to name existing EventType.subscription_active paid = state-Keeps e to name
  route-Keeps tx id e to name existing EventType.subscription_renewed paid =
      renew-Keeps e to name e.previous_billing_date
  route-Keeps tx id e to name existing EventType.subscription_failed paid =
      then_send-Keeps _ to _ (failed-Keeps tx e)
  route-Keeps tx id e to name existing EventType.subscription_cancelled paid =
      then_send-Keeps _ to _ (cancelled-Keeps tx e)
  route-Keeps tx id e to name existing EventType.subscription_pending paid =
      Keeps-then On _ _ (send_mail-Keeps to _) (state-Keeps e to name)
  route-Keeps tx id e to name existing EventType.subscription_updated paid = updated-Keeps e
  route-Keeps tx id e to name existing EventType.unknown paid = Keeps-pure On tt
