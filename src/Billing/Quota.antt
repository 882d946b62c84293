-- ===== src/Billing/Quota.antt =====
-- `IsLimitExceeded` with the reset that it makes itself, `checkMonthlyQuota` and
-- `IncrementMonthlyQueueCount` of internal/modules/billing/service/billing_service.go and
-- internal/modules/queue/http/create_queue_guard.go: how many queues a host can create in a month.
use queuebuzz.Prelude.{ℕ, ◌+◌, ◌<◌, Option, none, some, List, [], ◌∷◌, ltb, if◌then◌else◌}
use queuebuzz.Net.{Reply, ok, err, calm}
use queuebuzz.Queue.Domain.{Host}
use queuebuzz.Queue.World.{Backend, World}
use queuebuzz.Subscription.Domain.{Plan}
use queuebuzz.Billing.Usage.{create_counted}

-- 31 days in milliseconds.
abbrev pub month : ℕ
month = 2_678_400_000

-- The last reset, if there was one, is more than a month ago.
abbrev pub IsOver : ℕ → Option ℕ → Type 0
IsOver now none = Unit {0}
IsOver now (some reset) = reset + month < now

abbrev pub least : ℕ → ℕ → ℕ
least a b = if ltb a b then a else b

abbrev pub passed : Reply (Unit {0}) → ℕ
passed (ok u) = 1
passed (err e) = 0

module _ (B : Backend) (plan : Plan) (h : ℕ) where
  abbrev at : ℕ → World B → World B
  at t w = record w { now = t }

  -- How many of the attempts at these times create a queue.
  abbrev pub queues_created : List ℕ → World B → ℕ
  queues_created [] w = 0
  queues_created (t ∷ ts) w =
      let r = create_counted B plan h (calm (at t w)) in passed r.0 + queues_created ts r.1.state

  abbrev with_host : (Host → Host) → World B → World B
  with_host f w = record w { hosts = B.hosts.update_one h f w.hosts }
