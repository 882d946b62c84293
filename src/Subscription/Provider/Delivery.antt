-- ===== src/Subscription/Provider/Delivery.antt =====
-- A notice of the payment service from internal/modules/billing/provider/dodo.go through
-- `HandleWebhook` to the standing of the host.

use queuebuzz.Prelude.{ℕ}
use queuebuzz.Queue.World.{Backend, World}
use queuebuzz.Subscription.Provider.Message.{Message}

module _ (B : Backend) where
  -- The state after the claim of a delivery.
  abbrev pub claimed : ℕ → World B → World B
  claimed i w = record w { webhooks = B.webhooks.put i tt w.webhooks }
