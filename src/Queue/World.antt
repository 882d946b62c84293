-- ===== src/Queue/World.antt =====
-- The state that the modules work on: the collections, the keys in Redis, the
-- process's own dashboard cache, and the mails it has sent. The clock stands still during an operation.
use queuebuzz.Prelude.{ℕ, Bool, Option, none, some, false, ◌≡◌, List}
use queuebuzz.Store.{Collection, SortedSet, KeySpace}
use queuebuzz.Subscription.Domain.{Plan, Subscription, Transaction, BillingRecord, Mail}
use queuebuzz.Queue.Domain.{Entry, Queue, Host}
use queuebuzz.Queue.Ticket.{text_lt}
use queuebuzz.Net

pub record Settings : Type 0 where
  pub idle_timeout_min : ℕ
  pub grace_timer_sec : ℕ
  pub subscription_grace_days : ℕ

pub record Backend : Type 1 where
  pub entries : Collection {D = Entry} (λ e. e.id)
  pub queues : Collection {D = Queue} (λ q. q.id)
  pub hosts : Collection {D = Host} (λ h. h.id)
  -- `FindOne` of a queue's entry with the greatest ticket text
  pub last_ticket : ℕ → entries.Col → Option (List ℕ)
  pub last_ticket_of :
      (q : ℕ) (c : entries.Col) (t : List ℕ)
      → last_ticket q c ≡ some t
      → (i : ℕ) × (e : Entry) × (entries.find_one i c ≡ some e)
        × (e.queue_id ≡ q)
        × (e.ticket_no ≡ t)
  pub last_ticket_greatest :
      (q i : ℕ) (e : Entry) (c : entries.Col)
      → entries.find_one i c ≡ some e
      → e.queue_id ≡ q
      → (t : List ℕ) × (last_ticket q c ≡ some t) × (text_lt t e.ticket_no ≡ false)
  pub sorted : SortedSet
  -- `queue_positions:{queue}`
  pub positions : KeySpace ℕ (sorted.Set)
  -- `ticket_counter:{queue}`
  pub counters : KeySpace ℕ ℕ
  -- `rehydrated:{queue}`
  pub sentinels : KeySpace ℕ (Unit {0})
  -- `idle_timer:{queue}:{entry}` and `grace_timer:{queue}:{entry}`
  pub timers : KeySpace (ℕ × ℕ) (Unit {0})
  -- `user_session:{queue}:{entry}`
  pub sessions : KeySpace (ℕ × ℕ) (Unit {0})
  -- `joincode:{code}`
  pub join_codes : KeySpace ℕ ℕ
  -- `lock:join:{queue}:{contact}`
  pub locks : KeySpace (ℕ × List ℕ) ℕ
  -- `host:{host}:history:summary`
  pub summaries : KeySpace ℕ ℕ
  pub plans : Collection {D = Plan} (λ p. p.id)
  -- Every write of a subscription is filtered by its host, and inserts it only if there is none.
  pub subscriptions : Collection {D = Subscription} (λ s. s.host_id)
  pub insert_subscription :
      (s : Subscription) (c : subscriptions.Col)
      → subscriptions.find_one s.host_id c ≡ none
      → (c' : subscriptions.Col) × (subscriptions.insert_one s c ≡ some c')
  pub transactions : Collection {D = Transaction} (λ t. t.id)
  pub billing_records : Collection {D = BillingRecord} (λ r. r.id)
  -- `billing:host_plan:{host}`
  pub plan_caches : KeySpace ℕ Plan
  -- `webhook:{id}`
  pub webhooks : KeySpace ℕ (Unit {0})
  -- `refresh:{token}`, whose value is a host and its public identifier
  pub refresh_tokens : KeySpace ℕ (ℕ × Option ℕ)
  -- `anon_host:{queue}`, whose value is the hash of a token
  pub anon_hosts : KeySpace ℕ (List ℕ)

pub record World (B : Backend) : Type 0 where
  pub entries : B.entries.Col
  pub queues : B.queues.Col
  pub hosts : B.hosts.Col
  pub positions : B.positions.Keys
  pub counters : B.counters.Keys
  pub sentinels : B.sentinels.Keys
  pub idle_timers : B.timers.Keys
  pub grace_timers : B.timers.Keys
  pub sessions : B.sessions.Keys
  pub join_codes : B.join_codes.Keys
  pub locks : B.locks.Keys
  pub summaries : B.summaries.Keys
  pub plans : B.plans.Col
  pub subscriptions : B.subscriptions.Col
  pub transactions : B.transactions.Col
  pub billing_records : B.billing_records.Col
  pub plan_caches : B.plan_caches.Keys
  pub webhooks : B.webhooks.Keys
  pub refresh_tokens : B.refresh_tokens.Keys
  pub anon_hosts : B.anon_hosts.Keys
  -- the messages handed to the mail service, the last one first
  pub outbox : List Mail
  pub dashboards : ℕ → Bool
  pub settings : Option Settings
  pub now : ℕ

abbrev pub Call : Backend → Type 0 → Type 0
Call B A = Net.M (World B) A
