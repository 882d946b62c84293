-- ===== src/Subscription/Events.antt =====
-- `ProcessBillingEvent` and its handlers of
-- internal/modules/billing/service/billing_service.go. The identifiers of the transaction and of the
-- record are drawn at random and are arguments.
use Prim.Native.String.{String}
use queuebuzz.Prelude.{
  ℕ, Bool, false, not, ◌&&◌, ◌||◌, Option, none, some, List, [], ◌∷◌, is_some, only, get_or, ltb,
  if◌then◌else◌, ◌==◌,
}
use queuebuzz.Net.{
  duplicate_key, ok, err, ◌>>=◌, ◌>>◌, pure, request, read, attempt, observe, local, give,
}
use queuebuzz.Subscription.Domain.{
  Plan, Subscription, is_active, is_in_grace, is_pending, Transaction, FailureReason, BillingRecord,
  EventType, BillingEvent, Mail, purchase_confirmation, payment_failed_mail,
  subscription_renewed_mail, subscription_cancelled_mail, subscription_pending_mail, free_tier,
}
use queuebuzz.Queue.Domain.{Queue, is_open}
use queuebuzz.Queue.World.{Backend, World, Call}
use queuebuzz.Queue.Closing.{set_queue}
use queuebuzz.Queue.Opening.{expiry_after, with_expiry, extend_queue_keys_expiry}
use queuebuzz.Billing.{get_host, reset_monthly_limits}
use queuebuzz.Subscription.Changes.{
  is_renewed, starts_period, reason_of, failed_transaction, succeeded_transaction, billing_record,
  grace_days, paid_expiry_hours, with_grace, paid, with_state, with_metadata, blank,
}
use queuebuzz.Subscription.Plans.{
  get_plan_by_id, invalidate_host_plan_cache, update_subscription, set_tier, downgrade_host_tier,
  standing_subscription, cancelled_now,
}

module _ (B : Backend) where
  abbrev pub insert_transaction : (ℕ → Transaction) → Call B (Unit {0})
  insert_transaction t = request (λ w. elim (B.transactions.insert_one (t w.now) w.transactions) [
    | none ↦ (err duplicate_key, w)
    | some c ↦ (ok tt, record w { transactions = c })
  ])

  abbrev pub insert_record : (ℕ → BillingRecord) → Call B (Unit {0})
  insert_record r = request (λ w. elim (B.billing_records.insert_one (r w.now) w.billing_records) [
    | none ↦ (err duplicate_key, w)
    | some c ↦ (ok tt, record w { billing_records = c })
  ])

  -- `UpdateOne` with `SetUpsert(true)`
  unfoldable pub upsert_subscription :
      ℕ → Option ℕ → (ℕ → Subscription → Subscription) → Call B (Unit {0})
  upsert_subscription h plan f = request (λ w. elim (B.subscriptions.find_one h w.subscriptions) [
    | none ↦ elim (B.subscriptions.insert_one (f w.now (blank h plan w.now)) w.subscriptions) [
      | none ↦ (err duplicate_key, w)
      | some c ↦ (ok tt, record w { subscriptions = c })
    ]
    | some s ↦
        (ok tt, record w { subscriptions = B.subscriptions.update_one h (f w.now) w.subscriptions })
  ])

  -- `UpdateOne` whose result tells whether a document matched.
  unfoldable pub update_matched : ℕ → (ℕ → Subscription → Subscription) → Call B Bool
  update_matched h f = request (λ w. (
    ok (is_some (B.subscriptions.find_one h w.subscriptions)),
    record w { subscriptions = B.subscriptions.update_one h (f w.now) w.subscriptions },
  ))

  abbrev pub send : Option ℕ → (ℕ → Mail) → World B → World B
  send none m w = w
  send (some to) m w = record w { outbox = m to ∷ w.outbox }

  unfoldable pub send_mail : Option ℕ → (ℕ → Mail) → Call B (Unit {0})
  send_mail to m = local (send to m)

  unfoldable pub has_existing_subscription : ℕ → Call B Bool
  has_existing_subscription h = do
    found ← attempt (
        read (λ w.
          is_some
            (only (λ s. is_active s.status || is_in_grace s.status) (standing_subscription B h w))))
    pure (get_or found false)

  unfoldable pub get_host_email : ℕ → Call B (Option ℕ)
  get_host_email h = do d ← get_host B h; pure d.email

  unfoldable pub get_host_plan_name : Option ℕ → Call B (Option String)
  get_host_plan_name i = do
    p ← attempt (get_plan_by_id B i)
    pure (elim p [ none ↦ none | some p ↦ some p.name ])

  abbrev pub start_grace : ℕ → ℕ → BillingEvent → Call B (Unit {0})
  start_grace days id e = do
    attempt (insert_transaction (λ now. failed_transaction id now e.amount (reason_of e.type) e))
    matched ← update_matched e.host_id (with_grace days e)
    if matched then invalidate_host_plan_cache B e.host_id else pure tt

  unfoldable pub handle_failed_payment : ℕ → BillingEvent → Call B (Unit {0})
  handle_failed_payment id e n = start_grace (grace_days n.state.settings) id e n

  unfoldable pub handle_cancellation : ℕ → BillingEvent → Call B (Unit {0})
  handle_cancellation id e = do
    attempt (insert_transaction (λ now. failed_transaction id now 0 FailureReason.cancelled e))
    attempt (update_subscription B e.host_id cancelled_now)
    attempt (downgrade_host_tier B e.host_id)
    invalidate_host_plan_cache B e.host_id

  -- One round of the loop of `ExtendActiveQueuesExpiry`.
  unfoldable pub extend_queue : ℕ → Queue → Call B (Unit {0})
  extend_queue hours q = do
    updated ← attempt (set_queue B q.id (λ now. with_expiry (expiry_after hours now q) now))
    λ n.
        if is_some updated && ltb n.state.now (expiry_after hours n.state.now q)
        then extend_queue_keys_expiry B q.join_code n
        else (ok tt, n)

  abbrev pub extend_each : ℕ → List Queue → Call B (Unit {0})
  extend_each hours [] = pure tt
  extend_each hours (q ∷ qs) = do extend_queue hours q; extend_each hours qs

  abbrev pub is_open_of : ℕ → Queue → Bool
  is_open_of h q = is_open q.status && (elim q.host_id [ none ↦ false | some i ↦ i == h ])

  unfoldable pub extend_active_queues_expiry : ℕ → Plan → Call B (Unit {0})
  extend_active_queues_expiry h plan n =
      if plan.is_free
      then (ok tt, n)
      else (do
        qs ← read (λ w. B.queues.find (is_open_of h) w.queues)
        extend_each (paid_expiry_hours plan) qs)
          n

  abbrev pub tier_of : Option Plan → ℕ
  tier_of none = free_tier
  tier_of (some p) = p.tier

  abbrev pub extend_if_paid : ℕ → Option Plan → Call B (Unit {0})
  extend_if_paid h none = pure tt
  extend_if_paid h (some p) = do attempt (extend_active_queues_expiry h p); pure tt

  unfoldable pub handle_payment_succeeded : ℕ → ℕ → BillingEvent → Call B (Unit {0})
  handle_payment_succeeded tx id e = do
    attempt (insert_transaction (λ now. succeeded_transaction tx now e))
    plan ← attempt (get_plan_by_id B e.plan_id)
    attempt (insert_record (λ now. billing_record id tx now plan e))
    upsert_subscription e.host_id e.plan_id (paid e)
    attempt (set_tier B e.host_id (tier_of plan))
    extend_if_paid e.host_id plan

  abbrev pub send_if : Bool → Option ℕ → (ℕ → Mail) → Call B (Unit {0})
  send_if b to m = if b then send_mail to m else pure tt

  unfoldable pub handle_subscription_state_update :
      BillingEvent → Option ℕ → Option String → Call B (Unit {0})
  handle_subscription_state_update e to name = do
    upsert_subscription e.host_id e.plan_id (with_state e)
    reset_if (starts_period e.type)
    send_if (is_renewed e.type) to
        (λ i. subscription_renewed_mail i name e.billing_cycle e.total_amount e.currency)
    send_if (is_pending e.status) to (λ i. subscription_pending_mail i name)
    where
      reset_if : Bool → Call B (Unit {0})
      reset_if b = if b then attempt (reset_monthly_limits B e.host_id) >> pure tt else pure tt

  abbrev pub sync_tier : ℕ → Option Plan → Call B (Unit {0})
  sync_tier h none = pure tt
  sync_tier h (some p) = do attempt (set_tier B h p.tier); extend_if_paid h (some p)

  abbrev pub sync_plan : ℕ → Option ℕ → Call B (Unit {0})
  sync_plan h none = pure tt
  sync_plan h (some i) = do p ← attempt (get_plan_by_id B (some i)); sync_tier h p

  unfoldable pub handle_subscription_updated : BillingEvent → Call B (Unit {0})
  handle_subscription_updated e = do
    update_subscription B e.host_id (with_metadata e)
    sync_plan e.host_id e.plan_id
    invalidate_host_plan_cache B e.host_id

  -- The mail is sent whether the call succeeded or not, and its reply is the reply.
  abbrev pub then_send : Call B (Unit {0}) → Option ℕ → (ℕ → Mail) → Call B (Unit {0})
  then_send m to mail = do r ← observe m; send_mail to mail; give r

  abbrev pub renew : BillingEvent → Option ℕ → Option String → Option ℕ → Call B (Unit {0})
  renew e to name none = pure tt
  renew e to name (some previous) = handle_subscription_state_update e to name

  -- The branches of `ProcessBillingEvent`.
  unfoldable pub route_event :
      ℕ → ℕ → BillingEvent → Option ℕ → Option String → Bool → EventType → Call B (Unit {0})
  route_event tx id e to name existing EventType.payment_succeeded = do
    handle_payment_succeeded tx id e
    send_if (not existing) to
        (λ i. purchase_confirmation i name e.billing_cycle e.total_amount e.currency)
  route_event tx id e to name existing EventType.payment_failed =
      then_send (handle_failed_payment tx e) to (λ i. payment_failed_mail i name e.billing_cycle)
  route_event tx id e to name existing EventType.subscription_active =
      handle_subscription_state_update e to name
  route_event tx id e to name existing EventType.subscription_renewed =
      renew e to name e.previous_billing_date
  route_event tx id e to name existing EventType.subscription_updated =
      handle_subscription_updated e
  route_event tx id e to name existing EventType.subscription_failed =
      then_send (handle_failed_payment tx e) to (λ i. payment_failed_mail i name e.billing_cycle)
  route_event tx id e to name existing EventType.subscription_cancelled =
      then_send (handle_cancellation tx e) to (λ i. subscription_cancelled_mail i name)
  route_event tx id e to name existing EventType.subscription_pending = do
    send_mail to (λ i. subscription_pending_mail i name)
    handle_subscription_state_update e to name
  route_event tx id e to name existing EventType.unknown = pure tt

  unfoldable pub process_billing_event : ℕ → ℕ → BillingEvent → Call B (Unit {0})
  process_billing_event tx id e = do
    to ← attempt (get_host_email e.host_id)
    name ← get_host_plan_name e.plan_id
    invalidate_host_plan_cache B e.host_id
    existing ← has_existing_subscription e.host_id
    route_event tx id e (get_or to none) name existing e.type
