-- ===== src/Subscription/Refinement.antt =====
-- `ProcessBillingEvent` of internal/modules/billing/service/billing_service.go implements the
-- specification of Subscription/Standing.
use Prim.Native.String.{String}
use queuebuzz.Prelude.{
  ℕ, ◌≡◌, refl, ap, Bool, true, false, Option, none, some, if◌then◌else◌, is_some, get_or,
}
use queuebuzz.Net.{Reply, ok, err, ◌>>=◌, ◌>>◌, pure, observe, give, calm}
use queuebuzz.Net.Ends.{
  Outcome-run, observe-ends, Ends, Succeeds, Finishes, Finishes-pure, Finishes-attempt,
  Finishes-then, bind-ends, then-ends, attempt-ends, forget_result,
}
use queuebuzz.Calendar.{add_days}
use queuebuzz.Queue.World.{Backend, World, Call}
use queuebuzz.Subscription.Domain.{BillingEvent, EventType, Mail, is_in_grace}
use queuebuzz.Subscription.Changes.{
  starts_period, with_grace, paid, with_state, with_metadata, grace_days,
}
use queuebuzz.Subscription.Standing.{
  Standing, view, standing_after, start_standing, fail_standing, end_standing, update_standing,
  subscribed, view-with_grace, view-paid, view-with_state, view-blank, view-with_metadata,
  view-cancelled_now,
}
use queuebuzz.Subscription.Plans.{update_subscription, cancelled_now, downgrade_host_tier}
use queuebuzz.Subscription.Events.{
  start_grace, handle_failed_payment, handle_cancellation, handle_payment_succeeded,
  handle_subscription_state_update, handle_subscription_updated, then_send, renew, route_event,
  process_billing_event, send_mail,
}
use queuebuzz.Subscription.Frame
use queuebuzz.Subscription.Frame.{Accounts, accounts, On}
use queuebuzz.Subscription.Updates.{
  Same, Before, Became, Before-Became, update-Became, matched-Became, upsert-Became,
  invalidate-Before, invalidate-Became,
}

module _ (B : Backend) (e : BillingEvent) (w : World B) where
  abbrev standing : Standing
  standing = view (B.subscriptions.find_one e.host_id w.subscriptions)

  abbrev grace_end : ℕ
  grace_end = add_days (grace_days w.settings) w.now

  abbrev Start : Accounts B → Type 0
  Start = Before B e.host_id w

  abbrev End : Standing → Accounts B → Type 0
  End = Became B e.host_id w

  -- A handler takes the standing of the host to `s`.
  abbrev Moves : Call B (Unit {0}) → Standing → Type 0
  Moves m s = Ends (λ u. Start (accounts B u)) m (Succeeds (λ a u. End s (accounts B u)))

  keep-then :
      {A : Type 0} (m : Call B A) (k : Call B (Unit {0})) (s : Standing)
      → Finishes (λ u. Start (accounts B u)) m
      → Moves k s
      → Moves (m >> k) s
  keep-then m k s hm hk =
      then-ends _ (Succeeds (λ a u. Start (accounts B u))) _ m k hm (λ a. hk) (λ e t h. h)

  keep-bind :
      {A : Type 0} (m : Call B A) (f : A → Call B (Unit {0})) (s : Standing)
      → Finishes (λ u. Start (accounts B u)) m
      → ((a : A) → Moves (f a) s)
      → Moves (m >>= f) s
  keep-bind m f s hm hf =
      bind-ends _ (Succeeds (λ a u. Start (accounts B u))) _ m f hm hf (λ e t h. h)

  move-then :
      {A : Type 0} (m : Call B A) (k : Call B (Unit {0})) (s : Standing)
      → Ends (λ u. Start (accounts B u)) m (Succeeds (λ a u. End s (accounts B u)))
      → Finishes (λ u. End s (accounts B u)) k
      → Moves (m >> k) s
  move-then m k s hm hk =
      then-ends _ (Succeeds (λ a u. End s (accounts B u))) _ m k hm (λ a. hk) (λ e t h. h)

  move-bind :
      {A : Type 0} (m : Call B A) (f : A → Call B (Unit {0})) (s : Standing)
      → Ends (λ u. Start (accounts B u)) m (Succeeds (λ a u. End s (accounts B u)))
      → ((a : A) → Finishes (λ u. End s (accounts B u)) (f a))
      → Moves (m >>= f) s
  move-bind m f s hm hf =
      bind-ends _ (Succeeds (λ a u. End s (accounts B u))) _ m f hm hf (λ e t h. h)

  stay-Moves : (m : Call B (Unit {0})) → Finishes (λ u. Start (accounts B u)) m → Moves m standing
  stay-Moves m hm u b = let (r, t, run, q) = hm u b in (r, t, run, unchanged r t q)
    where
      unchanged :
          (r : Reply (Unit {0})) (t : World B)
          → Succeeds (λ a u. Start (accounts B u)) r t
          → Succeeds (λ a u. End standing (accounts B u)) r t
      unchanged (ok a) t q = Before-Became B e.host_id w (accounts B t) q
      unchanged (err x) t q = q

  if-Finishes :
      (s : Standing) (b : Bool) (m k : Call B (Unit {0}))
      → Finishes (λ u. End s (accounts B u)) m
      → Finishes (λ u. End s (accounts B u)) k
      → Finishes (λ u. End s (accounts B u)) (if b then m else k)
  if-Finishes s true m k hm hk = hm
  if-Finishes s false m k hm hk = hk

  start_grace-Moves :
      (id : ℕ)
      → Moves (start_grace B (grace_days w.settings) id e) (fail_standing grace_end standing)
  start_grace-Moves id = keep-then _ _ _ (Frame.insert_transaction-Finishes B Start _) (
      move-bind _ _ _
        (matched-Became B e.host_id w (with_grace (grace_days w.settings) e)
          (fail_standing grace_end) (λ d. refl) (view-with_grace (grace_days w.settings) w.now e)
          refl)
        (λ matched.
          if-Finishes _ matched _ _ (invalidate-Became B e.host_id w _) (Finishes-pure _ tt)))

  failed-Moves : (id : ℕ) → Moves (handle_failed_payment B id e) (fail_standing grace_end standing)
  unfolding handle_failed_payment calm
  failed-Moves id u b = rw b.settings (start_grace-Moves id u b)

  cancelled-Moves : (id : ℕ) → Moves (handle_cancellation B id e) (end_standing standing)
  unfolding handle_cancellation downgrade_host_tier
  cancelled-Moves id = keep-then _ _ _ (Frame.insert_transaction-Finishes B Start _) (
      move-then _ _ _
        (attempt-ends _ (λ u. End (end_standing standing) (accounts B u)) _
          (forget_result _ _ (update_subscription B e.host_id cancelled_now) (
            update-Became B e.host_id w cancelled_now end_standing (λ d. refl)
              (view-cancelled_now w.now) refl)))
        (Finishes-then _ _ _ (Frame.set_tier-Finishes B (End (end_standing standing)) e.host_id _)
          (invalidate-Became B e.host_id w _)))

  paid-Moves : (tx id : ℕ) → Moves (handle_payment_succeeded B tx id e) (subscribed e.plan_id)
  unfolding handle_payment_succeeded
  paid-Moves tx id = keep-then _ _ _ (Frame.insert_transaction-Finishes B Start _) (
      keep-bind _ _ _ (Frame.get_plan_by_id-Finishes B Start e.plan_id) (λ plan.
        keep-then _ _ _ (Frame.insert_record-Finishes B Start _) (
          move-then _ _ _
            (upsert-Became B e.host_id w (paid e) (λ s. subscribed e.plan_id) (λ d. refl)
              (view-paid w.now e) e.plan_id refl refl)
            (Finishes-then _ _ _
              (Frame.set_tier-Finishes B (End (subscribed e.plan_id)) e.host_id _)
              (Frame.extend_if_paid-Finishes B (End (subscribed e.plan_id)) e.host_id plan)))))

  updated-Moves : Moves (handle_subscription_updated B e) (update_standing e standing)
  unfolding handle_subscription_updated
  updated-Moves =
      move-then _ _ _
        (update-Became B e.host_id w (with_metadata e) (update_standing e) (λ d. refl)
          (view-with_metadata w.now e) refl)
        (Finishes-then _ _ _
          (Frame.sync_plan-Finishes B (End (update_standing e standing)) e.host_id e.plan_id)
          (invalidate-Became B e.host_id w _))

  module _ (known : is_in_grace e.status ≡ false) where
    state-Moves :
        (to : Option ℕ) (name : Option String)
        → Moves (handle_subscription_state_update B e to name) (start_standing e standing)
    unfolding handle_subscription_state_update
    state-Moves to name =
        move-then _ _ _
          (upsert-Became B e.host_id w (with_state e) (start_standing e) (λ d. refl)
            (λ d. view-with_state w.now e d known) e.plan_id refl
            (view-blank w.now e.host_id e known))
          (Finishes-then _ _ _
            (if-Finishes _ (starts_period e.type) _ _
              (Frame.reset-Finishes B (End (start_standing e standing)) e.host_id)
              (Finishes-pure _ tt))
            (Finishes-then _ _ _ (Frame.send_if-Finishes B (End (start_standing e standing)) _ to _)
              (Frame.send_if-Finishes B (End (start_standing e standing)) _ to _)))

    renew-Moves :
        (to : Option ℕ) (name : Option String) (previous : Option ℕ)
        → Moves
            (renew B e to name previous)
            (if is_some previous then start_standing e standing else standing)
    renew-Moves to name none = stay-Moves (pure tt) (Finishes-pure _ tt)
    renew-Moves to name (some previous) = state-Moves to name

    then_send-Moves :
        (m : Call B (Unit {0})) (s : Standing) (to : Option ℕ) (mail : ℕ → Mail)
        → Moves m s
        → Moves (then_send B m to mail) s
    then_send-Moves m s to mail hm =
        bind-ends _ (Succeeds (Succeeds (λ a u. End s (accounts B u)))) _ (observe m) _
          (observe-ends _ _ m hm) sent (λ e t h. h)
      where
        sent :
            (r : Reply (Unit {0}))
            → Ends
                (Succeeds (λ a u. End s (accounts B u)) r)
                (send_mail B to mail >> give r)
                (Succeeds (λ a u. End s (accounts B u)))
        sent (ok a) =
            Finishes-then _ _ _ (Frame.send_mail-Finishes B (End s) to mail) (Finishes-pure _ a)
        sent (err x) = λ u f. absurd f

    route-Moves :
        (tx id : ℕ) (to : Option ℕ) (name : Option String) (existing : Bool) (t : EventType)
        → Moves (route_event B tx id e to name existing t) (standing_after grace_end e t standing)
    unfolding route_event
    route-Moves tx id to name existing EventType.payment_succeeded =
        move-then _ _ _ (paid-Moves tx id)
          (Frame.send_if-Finishes B (End (subscribed e.plan_id)) _ to _)
    route-Moves tx id to name existing EventType.payment_failed =
        then_send-Moves _ _ to _ (failed-Moves tx)
    route-Moves tx id to name existing EventType.subscription_active = state-Moves to name
    route-Moves tx id to name existing EventType.subscription_renewed =
        renew-Moves to name e.previous_billing_date
    route-Moves tx id to name existing EventType.subscription_failed =
        then_send-Moves _ _ to _ (failed-Moves tx)
    route-Moves tx id to name existing EventType.subscription_cancelled =
        then_send-Moves _ _ to _ (cancelled-Moves tx)
    route-Moves tx id to name existing EventType.subscription_pending =
        keep-then _ _ _ (Frame.send_mail-Finishes B Start to _) (state-Moves to name)
    route-Moves tx id to name existing EventType.subscription_updated = updated-Moves
    route-Moves tx id to name existing EventType.unknown = stay-Moves (pure tt) (Finishes-pure _ tt)

    process-Moves :
        (tx id : ℕ)
        → Ends
            (λ u. Same B e.host_id w (accounts B u))
            (process_billing_event B tx id e)
            (Succeeds (λ a u. End (standing_after grace_end e e.type standing) (accounts B u)))
    unfolding process_billing_event
    process-Moves tx id =
        bind-ends _ (Succeeds (λ a u. Same B e.host_id w (accounts B u))) _ _ _
          (Finishes-attempt _ _ (Frame.get_host_email-Stays B (Same B e.host_id w) e.host_id))
          (λ to.
            bind-ends _ (Succeeds (λ a u. Same B e.host_id w (accounts B u))) _ _ _
              (Frame.get_host_plan_name-Finishes B (Same B e.host_id w) e.plan_id)
              (λ name.
                then-ends _ (Succeeds (λ a u. Start (accounts B u))) _ _ _
                  (invalidate-Before B e.host_id w)
                  (λ a.
                    keep-bind _ _ _ (Frame.has_existing_subscription-Finishes B Start e.host_id)
                      (λ existing. route-Moves tx id (get_or to none) name existing e.type))
                  (λ e t h. h))
              (λ e t h. h))
          (λ e t h. h)

-- When every call is answered and the event does not bring the status of a grace period, which the
-- provider does not have, processing it succeeds and takes the standing of its host to the one that
-- the specification gives; no other subscription changes, and no plan of the host is cached.
pub process_billing_event-Became :
    (B : Backend) (e : BillingEvent) (tx id : ℕ) (w : World B)
    → is_in_grace e.status ≡ false
    → ((process_billing_event B tx id e (calm w)).0 ≡ ok tt)
      × Became B e.host_id w
          (standing_after
            (add_days (grace_days w.settings) w.now)
            e
            e.type
            (view (B.subscriptions.find_one e.host_id w.subscriptions)))
          (accounts B (process_billing_event B tx id e (calm w)).1.state)
process_billing_event-Became B e tx id w known =
    let same : Same B e.host_id w (accounts B w) = record {
      subscriptions = refl;
      plans = refl;
      settings = refl;
      now = refl;
    } in
    let (a, run, became) = Outcome-run _ _ (process-Moves B e w known tx id w same) in
    (ap (λ x. x.0) run, became)
