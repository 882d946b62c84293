-- ===== src/Subscription/Requests.antt =====
-- `CancelSubscriptionAtPeriodEnd`, `UpdatePaymentMethod`, `SyncSubscriptionDetails` and
-- `ResolveTrialOffer` of internal/modules/billing/service/billing_service.go: what a host asks for.
-- The replies of the payment service are arguments; the texts of errors are left out.
pub mod Cancellation
pub mod Sync
use Prim.Native.String.{String}
use queuebuzz.Prelude.{
  ℕ, ◌+◌, Bool, true, false, not, ◌&&◌, Option, none, some, List, [], ◌∷◌, is_some, get_or,
  if◌then◌else◌, ◌==◌,
}
use queuebuzz.Net.{
  Error, no_documents, Reply, ok, err, rejected, ◌>>=◌, ◌>>◌, pure, fail, request, observe, give,
}
use queuebuzz.Subscription.Domain.{Plan, Subscription, SubscriptionStatus, is_canceled, Card}
use queuebuzz.Subscription.Changes.{keep_or}
use queuebuzz.Subscription.Plans.{
  last_of, get_subscription, update_subscription, invalidate_host_plan_cache,
}
use queuebuzz.Queue.World.{Backend, World, Call}

abbrev pub scheduled : Option String → Option String → ℕ → Subscription → Subscription
scheduled comment feedback now s = record s {
  cancel_at_period_end = true;
  cancellation_comment = comment;
  cancellation_feedback = feedback;
  updated_at = now;
}

-- What the payment service tells of a subscription and the program keeps; an empty text and a time
-- that is not positive are `none`.
pub record Details : Type 0 where
  pub card : Option Card
  pub status : Option SubscriptionStatus
  pub next_billing_date : Option ℕ

-- The fields that the update sets are those of the subscription that was read.
abbrev pub sync_update : Details → Subscription → ℕ → Subscription → Subscription
sync_update d s now t = record t {
  card = keep_or d.card s.card;
  status = get_or d.status s.status;
  current_period_end = get_or d.next_billing_date s.current_period_end;
  updated_at = now;
  cancelled_at = if is_canceled (get_or d.status s.status) then some now else none;
}

module _ (B : Backend) where
  abbrev pub schedule : ℕ → Option String → Option String → Reply (Unit {0}) → Call B (Unit {0})
  schedule h comment feedback (err e) = fail (rejected 500)
  schedule h comment feedback (ok u) = do
    updated ← observe (update_subscription B h (scheduled comment feedback))
    invalidate_host_plan_cache B h
    give updated

  abbrev pub schedule_found :
      ℕ → Option String → Option String → Reply (Unit {0}) → Reply Subscription → Call B (Unit {0})
  schedule_found h comment feedback answer (err e) = fail (rejected 500)
  schedule_found h comment feedback answer (ok s) =
      if not (is_some s.provider_subscription_id)
      then fail (rejected 500)
      else (if s.cancel_at_period_end
          then fail (rejected 500)
          else schedule h comment feedback answer)

  -- `answer` is the reply of the payment service to the cancellation.
  unfoldable pub cancel_subscription_at_period_end :
      ℕ → Option String → Option String → Reply (Unit {0}) → Call B (Unit {0})
  cancel_subscription_at_period_end h comment feedback answer = do
    s ← observe (get_subscription B h)
    schedule_found h comment feedback answer s

  abbrev link_of : Reply String → Reply Subscription → Call B String
  link_of link (err e) = fail (rejected 500)
  link_of link (ok s) =
      if is_some s.provider_subscription_id then give link else fail (rejected 500)

  unfoldable pub update_payment_method : ℕ → Reply String → Call B String
  update_payment_method h link = do s ← observe (get_subscription B h); link_of link s

  abbrev pub sync_with : Subscription → Reply Details → Call B (Unit {0})
  sync_with s (err e) = fail e
  sync_with s (ok d) = update_subscription B s.host_id (sync_update d s)

  unfoldable pub sync_subscription_details : Subscription → Reply Details → Call B (Unit {0})
  sync_subscription_details s details =
      if is_some s.provider_subscription_id then sync_with s details else pure tt

  abbrev offer_of : Option Plan → Reply Plan
  offer_of none = err no_documents
  offer_of (some p) = if p.trial_duration_days == 0 then err no_documents else ok p

  -- The empty token is `none`. The plan of a token is unique, so that the order of the search is free.
  unfoldable pub resolve_trial_offer : Option ℕ → Call B Plan
  resolve_trial_offer none = fail no_documents
  resolve_trial_offer (some token) = request (λ w. (
    offer_of (
        last_of (
          B.plans.find (λ p. p.trial_enabled && (get_or p.trial_access_token (token + 1) == token))
            w.plans)),
    w,
  ))
