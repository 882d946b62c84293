-- ===== src/Examples/World.antt =====
-- A small store for the examples: a queue of a registered host, whose second guest waits and whose
-- first is called. internal/modules/queue/domain names the fields.
use native.Mathlib.Decide.{ℕ_discrete}
use mathlib.Core.List.{List-discrete}
use mathlib.Core.HLevel.{×_discrete}
use queuebuzz.Prelude.{ℕ, ◌+◌, ◌==◌, true, false, none, some, [], ◌∷◌, if◌then◌else◌}
use queuebuzz.Store.Concrete.{key_space, sorted_set, collection, insert_doc_absent}
use queuebuzz.Subscription.Domain.{
  Plan, Subscription, Transaction, BillingRecord, canceled, TransactionStatus, FailureReason,
  free_tier,
}
use queuebuzz.Queue.Domain.{Entry, Queue, Host, EntryStatus, waiting, called, active}
use queuebuzz.Queue.Ticket.{format_ticket}
use queuebuzz.Queue.Greatest.{last_ticket, last_ticket_of, last_ticket_greatest}
use queuebuzz.Queue.World.{Backend, World}

abbrev pub guest : EntryStatus → ℕ → Entry
guest status i = record {
  id = i;
  token = i;
  queue_id = 7;
  ticket_no = format_ticket i;
  verify_code = 0;
  status = status;
  email = none;
  phone = none;
  party_size = none;
  name = "Ada";
  created_by = none;
  served_at = none;
  finished_at = none;
  created_at = 100 + i;
  updated_at = 100 + i;
}

abbrev pub cafe : Queue
cafe = record {
  id = 7;
  name = "Cafe";
  host_id = some 5;
  host_public_id = some 6;
  join_code = some 1234;
  status = active;
  avg_service_mins = 5;
  delay_expires_at = 0;
  manual_positioning = false;
  strict_queue_mode = false;
  created_at = 90;
  updated_at = 90;
  expires_at = 900;
  closed_at = none;
  activity_logs = [];
}

abbrev pub owner : Host
owner = record {
  id = 5;
  email = some 55;
  tier = 0;
  monthly_queue_count = 1;
  total_queue_count = 1;
  total_served_count = 0;
  monthly_limit_reset_at = none;
}

abbrev pub free_plan : Plan
free_plan = record {
  id = 1;
  slug = "free";
  tier = free_tier;
  name = "Free";
  is_free = true;
  currency = "USD";
  monthly_price = 0;
  yearly_price = 0;
  monthly_product_id = none;
  yearly_product_id = none;
  trial_enabled = false;
  trial_duration_days = 0;
  trial_access_token = none;
  queue_expiry_hours = 0;
  max_queues_per_month = 2;
  max_guests_per_queue = 50;
  history_access = false;
  can_view_guest_data = false;
  history_retention_days = 7;
}

abbrev pub pro_plan : Plan
pro_plan = record free_plan {
  id = 2;
  slug = "pro";
  tier = 1;
  name = "Pro";
  is_free = false;
  monthly_price = 9;
  yearly_price = 90;
  monthly_product_id = some 21;
  yearly_product_id = some 22;
  trial_enabled = true;
  trial_duration_days = 14;
  trial_access_token = some 77;
  queue_expiry_hours = 48;
  max_queues_per_month = 0;
}

abbrev pub no_subscription : Subscription
no_subscription = record {
  host_id = 0;
  plan_id = none;
  status = canceled;
  provider_subscription_id = none;
  provider_customer_id = none;
  billing_cycle = none;
  grace_period_until = none;
  current_period_end = 0;
  cancel_at_period_end = false;
  cancellation_comment = none;
  cancellation_feedback = none;
  cancelled_at = none;
  card = none;
  renewal_reminder_sent_at = none;
  created_at = 0;
  updated_at = 0;
}

abbrev no_transaction : Transaction
no_transaction = record {
  id = 0;
  host_id = 0;
  plan_id = none;
  billing_cycle = none;
  amount = 0;
  total_amount = 0;
  currency = "";
  status = TransactionStatus.failed;
  provider_payment_id = none;
  failure_reason = FailureReason.none;
  created_at = 0;
}

abbrev no_record : BillingRecord
no_record = record {
  id = 0;
  transaction_id = 0;
  host_id = 0;
  plan_id = none;
  plan_name = "";
  billing_cycle = none;
  amount = 0;
  currency = "";
  billed_at = 0;
}

abbrev pub backend : Backend
backend = record {
  entries = collection {D = Entry} (λ e. e.id);
  queues = collection {D = Queue} (λ q. q.id);
  hosts = collection {D = Host} (λ h. h.id);
  last_ticket = last_ticket (collection {D = Entry} (λ e. e.id));
  last_ticket_of = last_ticket_of (collection {D = Entry} (λ e. e.id));
  last_ticket_greatest = last_ticket_greatest (collection {D = Entry} (λ e. e.id));
  sorted = sorted_set;
  positions = key_space ℕ_discrete;
  counters = key_space ℕ_discrete;
  sentinels = key_space ℕ_discrete;
  timers = key_space (×_discrete ℕ_discrete ℕ_discrete);
  sessions = key_space (×_discrete ℕ_discrete ℕ_discrete);
  join_codes = key_space ℕ_discrete;
  locks = key_space (×_discrete ℕ_discrete (List-discrete ℕ_discrete));
  summaries = key_space ℕ_discrete;
  plans = collection {D = Plan} (λ p. p.id);
  subscriptions = collection {D = Subscription} (λ s. s.host_id);
  insert_subscription = insert_doc_absent (λ s. s.host_id);
  transactions = collection {D = Transaction} (λ t. t.id);
  billing_records = collection {D = BillingRecord} (λ r. r.id);
  plan_caches = key_space ℕ_discrete;
  webhooks = key_space ℕ_discrete;
  refresh_tokens = key_space ℕ_discrete;
  anon_hosts = key_space ℕ_discrete;
}

-- Redis knows the positions and the counter, or has lost them.
abbrev pub lost : World backend
lost = record {
  entries = record {
    keys = 1 ∷ 2 ∷ [];
    doc = λ i. if i == 1 then guest called i else guest waiting i;
  };
  queues = record { keys = 7 ∷ []; doc = λ i. cafe };
  hosts = record { keys = 5 ∷ []; doc = λ i. owner };
  positions = λ q. none;
  counters = λ q. none;
  sentinels = λ q. none;
  idle_timers = λ k. some tt;
  grace_timers = λ k. none;
  sessions = λ k. none;
  join_codes = λ c. if c == 1234 then some 7 else none;
  locks = λ k. none;
  summaries = λ h. none;
  plans = record { keys = 1 ∷ 2 ∷ []; doc = λ i. if i == 1 then free_plan else pro_plan };
  subscriptions = record { keys = []; doc = λ i. no_subscription };
  transactions = record { keys = []; doc = λ i. no_transaction };
  billing_records = record { keys = []; doc = λ i. no_record };
  plan_caches = λ h. none;
  webhooks = λ i. none;
  refresh_tokens = λ t. none;
  anon_hosts = λ q. none;
  outbox = [];
  dashboards = λ h. true;
  settings = none;
  now = 200;
}

abbrev pub world : World backend
world = record lost {
  positions =
      λ q. some (record { member = 1; points = 101 } ∷ record { member = 2; points = 102 } ∷ []);
  counters = λ q. some 2;
}
