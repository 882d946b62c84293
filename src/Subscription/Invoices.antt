-- ===== src/Subscription/Invoices.antt =====
-- `ProcessBillingEvent` of internal/modules/billing/service/billing_service.go and `HandleWebhook` of
-- internal/modules/billing/http/handler.go, whatever the fates of the calls: which events make
-- billing records, and what a second delivery of an event does.
use Prim.Native.String.{String}
use queuebuzz.Prelude.{
  ℕ, ◌≡◌, refl, Bool, true, false, Option, none, some, List, ◌∷◌, get_or, Option-cases, inl, inr,
}
use queuebuzz.Net.{Fate, answered, Net, Reply, ok, err, attempt, request, observe, calm}
use queuebuzz.Net.Keeps.{Keeps, Keeps-pure, Keeps-bind, Keeps-then, Keeps-request, Keeps-attempt}
use queuebuzz.Queue.World.{Backend, World}
use queuebuzz.Subscription.Domain.{BillingEvent, BillingRecord, EventType}
use queuebuzz.Subscription.Events.{
  insert_record, handle_payment_succeeded, route_event, process_billing_event,
}
use queuebuzz.Subscription.Records.{
  On, get_host_email-Keeps, get_plan-Keeps, get_name-Keeps, existing-Keeps, invalidate-Keeps,
  insert_transaction-Keeps, upsert-Keeps, tier-Keeps, extend_if_paid-Keeps, send_if-Keeps,
  route-Keeps,
}
use queuebuzz.Subscription.Webhook.{
  event, claim_webhook, answer_processed, process_webhook, handle_webhook,
}

abbrev pub is_payment : EventType → Bool
is_payment EventType.payment_succeeded = true
is_payment _ = false

module _ (B : Backend) where
  process-Keeps :
      (P : B.billing_records.Col → B.webhooks.Keys → Type 0) (tx id : ℕ) (e : BillingEvent)
      → ((to : Option ℕ) (name : Option String) (existing : Bool)
          → e.type ≡ EventType.payment_succeeded
          → Keeps (On B P) (route_event B tx id e to name existing EventType.payment_succeeded))
      → Keeps (On B P) (process_billing_event B tx id e)
  unfolding process_billing_event
  process-Keeps P tx id e paid =
      Keeps-bind (On B P) _ _ (Keeps-attempt (On B P) _ (get_host_email-Keeps B P e.host_id)) (λ to.
        Keeps-bind (On B P) _ _ (get_name-Keeps B P e.plan_id) (λ name.
          Keeps-then (On B P) _ _ (invalidate-Keeps B P e.host_id) (
            Keeps-bind (On B P) _ _ (existing-Keeps B P e.host_id) (λ existing.
              route-Keeps B P tx id e (get_or to none) name existing e.type
                (paid (get_or to none) name existing)))))

  -- Whatever the fates of the calls, an event that is not a payment that succeeded makes, changes and
  -- deletes no billing record.
  pub process_billing_event-records :
      (tx id : ℕ) (e : BillingEvent) (n : Net (World B))
      → is_payment e.type ≡ false
      → (process_billing_event B tx id e n).1.state.billing_records ≡ n.state.billing_records
  process_billing_event-records tx id e n other =
      process-Keeps (λ c k. c ≡ n.state.billing_records) tx id e
        (λ to name existing paid. cc (rw paid at other)) n refl

  module _ (Q : B.webhooks.Keys → Type 0) where
    abbrev Kept : B.billing_records.Col → B.webhooks.Keys → Type 0
    Kept c k = Q k

    record-Keeps : (r : ℕ → BillingRecord) → Keeps (On B Kept) (attempt (insert_record B r))
    record-Keeps r = Keeps-attempt (On B Kept) _ (
        Keeps-request (On B Kept) _ (λ w h.
          elim (Option-cases (B.billing_records.insert_one (r w.now) w.billing_records)) [
            | inl x ↦ rw x h
            | inr (c, x) ↦ rw x h
          ]))

    paid-Keeps :
        (tx id : ℕ) (e : BillingEvent) → Keeps (On B Kept) (handle_payment_succeeded B tx id e)
    unfolding handle_payment_succeeded
    paid-Keeps tx id e = Keeps-then (On B Kept) _ _ (insert_transaction-Keeps B Kept _) (
        Keeps-bind (On B Kept) _ _ (get_plan-Keeps B Kept e.plan_id) (λ plan.
          Keeps-then (On B Kept) _ _ (record-Keeps _) (
            Keeps-then (On B Kept) _ _ (upsert-Keeps B Kept e.host_id e.plan_id _) (
              Keeps-then (On B Kept) _ _ (tier-Keeps B Kept e.host_id _)
                (extend_if_paid-Keeps B Kept e.host_id plan)))))

    paid_route-Keeps :
        (tx id : ℕ) (e : BillingEvent) (to : Option ℕ) (name : Option String) (existing : Bool)
        → Keeps (On B Kept) (route_event B tx id e to name existing EventType.payment_succeeded)
    unfolding route_event
    paid_route-Keeps tx id e to name existing =
        Keeps-then (On B Kept) _ _ (paid-Keeps tx id e) (send_if-Keeps B Kept _ to _)

    webhook-Keeps : (tx id : ℕ) (e : BillingEvent) → Keeps (On B Kept) (process_webhook B tx id e)
    unfolding process_webhook observe
    webhook-Keeps tx id e =
        Keeps-bind (On B Kept) (observe (process_billing_event B tx id e)) _
          (process-Keeps Kept tx id e
            (λ to name existing p. paid_route-Keeps tx id e to name existing))
          answered_event
      where
        answered_event : (r : Reply (Unit {0})) → Keeps (On B Kept) (answer_processed B r)
        answered_event (ok a) = Keeps-pure (On B Kept) tt
        answered_event (err x) = λ n h. h

  -- The first call of the first delivery is answered: the event was not delivered before.
  abbrev pub first_delivery :
      ℕ → ℕ → ℕ → BillingEvent → List Fate → World B → Reply (Unit {0}) × Net (World B)
  first_delivery tx id i e fates w =
      handle_webhook B tx id (some i) (event e) (record (calm w) { fates = answered ∷ fates })

  first_delivery-seen :
      (tx id i : ℕ) (e : BillingEvent) (fates : List Fate) (w : World B)
      → B.webhooks.get i w.webhooks ≡ none
      → B.webhooks.get i (first_delivery tx id i e fates w).1.state.webhooks ≡ some tt
  unfolding handle_webhook claim_webhook observe request calm
  first_delivery-seen tx id i e fates w new = rw new (
      webhook-Keeps (λ k. B.webhooks.get i k ≡ some tt) tx id e
        (record (calm (record w { webhooks = B.webhooks.put i tt w.webhooks })) { fates = fates })
        (B.webhooks.get-put i tt w.webhooks))

  -- Whatever becomes of the calls of a first delivery after the one that claims it, also if it fails,
  -- a second delivery with the same identifier is answered with success and changes nothing.
  pub handle_webhook-redelivery :
      (tx id i : ℕ) (e : BillingEvent) (fates : List Fate) (w : World B)
      → B.webhooks.get i w.webhooks ≡ none
      → let seen = (first_delivery tx id i e fates w).1.state in
        handle_webhook B tx id (some i) (event e) (calm seen) ≡ (ok tt, calm seen)
  unfolding handle_webhook claim_webhook calm
  handle_webhook-redelivery tx id i e fates w new =
      rw (first_delivery-seen tx id i e fates w new) refl
