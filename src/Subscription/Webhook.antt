-- ===== src/Subscription/Webhook.antt =====
-- `HandleWebhook` of internal/modules/billing/http/handler.go. `VerifyWebhook` checks the signature
-- by a library and parses the text, so what it gives is an argument.
use queuebuzz.Prelude.{ℕ, Option, none, some, is_some, if◌then◌else◌}
use queuebuzz.Net.{Reply, ok, err, nil_reply, rejected, ◌>>=◌, pure, fail, request, observe}
use queuebuzz.Subscription.Domain.{BillingEvent}
use queuebuzz.Queue.World.{Backend, Call}
use queuebuzz.Subscription.Events.{process_billing_event}

pub data Verified : Type 0 where
  bad_signature without_host : Verified
  event : BillingEvent → Verified

module _ (B : Backend) where
  -- `SET NX`
  unfoldable pub claim_webhook : ℕ → Call B (Unit {0})
  claim_webhook i = request (λ w.
      if is_some (B.webhooks.get i w.webhooks)
      then (err nil_reply, w)
      else (ok tt, record w { webhooks = B.webhooks.put i tt w.webhooks }))

  abbrev pub answer_processed : Reply (Unit {0}) → Call B (Unit {0})
  answer_processed (ok a) = pure tt
  answer_processed (err e) = fail (rejected 500)

  unfoldable pub process_webhook : ℕ → ℕ → BillingEvent → Call B (Unit {0})
  process_webhook tx id e = do r ← observe (process_billing_event B tx id e); answer_processed r

  -- Any error counts as a delivery that was seen before.
  abbrev pub unless_seen : ℕ → ℕ → BillingEvent → Reply (Unit {0}) → Call B (Unit {0})
  unless_seen tx id e (ok a) = process_webhook tx id e
  unless_seen tx id e (err x) = pure tt

  unfoldable pub handle_webhook : ℕ → ℕ → Option ℕ → Verified → Call B (Unit {0})
  handle_webhook tx id delivery bad_signature = fail (rejected 401)
  handle_webhook tx id delivery without_host = fail (rejected 400)
  handle_webhook tx id none (event e) = process_webhook tx id e
  handle_webhook tx id (some i) (event e) = do
    seen ← observe (claim_webhook i)
    unless_seen tx id e seen
