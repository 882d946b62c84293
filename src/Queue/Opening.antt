-- ===== src/Queue/Opening.antt =====
-- `CreateQueue`, `DeleteQueue` and `ExtendActiveQueueExpiry` of internal/modules/queue/service/service.go. The identifier that
-- is drawn is an argument, and so are the join codes, as many as the settings allow attempts; the
-- plan is what `GetHostPlan` finds. Of the fields that only the guards and the pages read, the
-- model has none.
pub mod Creation
pub mod Deletion
pub mod Amounts
pub mod Extension
use Prim.Native.String.{String}
use queuebuzz.Prelude.{
  ℕ, ◌+◌, ◌*◌, Bool, true, false, Option, none, some, List, [], ◌∷◌, only, ltb, if◌then◌else◌, ◌==◌,
}
use queuebuzz.Net.{
  err, ok, duplicate_key, rejected, ◌>>=◌, ◌>>◌, pure, fail, request, write, attempt,
}
use queuebuzz.Subscription.Domain.{Plan, free_tier}
use queuebuzz.Queue.Domain.{Queue, active, created, is_open}
use queuebuzz.Queue.World.{Backend, World, Call}
use queuebuzz.Queue.Slug.{normal_slug, is_valid_slug, is_reserved_slug}
use queuebuzz.Queue.Repository.{generate_join_code, set_rehydrated_sentinel}
use queuebuzz.Queue.Lookup.{or_missing, find_queue}
use queuebuzz.Queue.Closing.{forget_host, release_code, delete_entries, set_queue}
use queuebuzz.Billing.{increment_monthly_queue_count, decrement_monthly_queue_count}

pub record Params : Type 0 where
  pub host_id : Option ℕ
  pub host_public_id : Option ℕ
  pub name : String
  pub slug : List ℕ
  pub avg_service_mins : ℕ
  pub manual_positioning : Bool

-- The default, the limit of the plan, or a year if a paid plan has none.
unfoldable pub expiry_hours : Option Plan → ℕ
expiry_hours none = 24
expiry_hours (some plan) =
    if plan.queue_expiry_hours == 0
    then (if plan.tier == free_tier then 24 else 24 * 365)
    else plan.queue_expiry_hours

abbrev pub hour : ℕ
hour = 3600 * 1000

-- The document, with the join code that was claimed for it.
abbrev pub new_queue : Params → Option Plan → ℕ → ℕ → ℕ → Queue
new_queue p plan id now code = record {
  id = id;
  name = p.name;
  host_id = p.host_id;
  host_public_id = p.host_public_id;
  join_code = some code;
  status = active;
  avg_service_mins = if p.avg_service_mins == 0 then 5 else p.avg_service_mins;
  delay_expires_at = 0;
  manual_positioning = p.manual_positioning;
  strict_queue_mode = false;
  created_at = now;
  updated_at = now;
  expires_at = now + expiry_hours plan * hour;
  closed_at = none;
  activity_logs = record { value = created; timestamp = now } ∷ [];
}

-- The limit from the creation on, or from now on if that has passed.
abbrev pub expiry_after : ℕ → ℕ → Queue → ℕ
expiry_after hours now q =
    let limit = q.created_at + hours * hour in if ltb limit now then now + hours * hour else limit

abbrev pub new_expiry : Option Plan → ℕ → Queue → ℕ
new_expiry plan now q = expiry_after (expiry_hours plan) now q

abbrev pub with_expiry : ℕ → ℕ → Queue → Queue
with_expiry expiry now q = record q { expires_at = expiry; updated_at = now }

abbrev pub is_owned : ℕ → Queue → Bool
is_owned h q = elim q.host_id [ none ↦ false | some i ↦ i == h ]

module _ (B : Backend) where
  unfoldable pub insert_queue : Queue → Call B (Unit {0})
  insert_queue q = request (λ w. elim (B.queues.insert_one q w.queues) [
    | none ↦ (err duplicate_key, w)
    | some c ↦ (ok tt, record w { queues = c })
  ])

  -- The steps after the checks of the slug.
  unfoldable pub open_queue : Params → Option Plan → ℕ → List ℕ → Call B Queue
  open_queue p plan id codes n =
      (do
        code ← generate_join_code B id codes
        insert_queue (new_queue p plan id n.state.now code)
        attempt (increment_monthly_queue_count B p.host_id)
        attempt (set_rehydrated_sentinel B id)
        forget_host B (some (new_queue p plan id n.state.now code))
        pure (new_queue p plan id n.state.now code))
        n

  unfoldable pub create_queue : Params → Option Plan → ℕ → List ℕ → Call B Queue
  create_queue p plan id codes =
      let slug = normal_slug p.slug in
      if is_valid_slug slug
      then (if is_reserved_slug slug then fail (rejected 500) else open_queue p plan id codes)
      else fail (rejected 500)

  abbrev pub release_if_open : Queue → Call B (Unit {0})
  release_if_open q = if is_open q.status then release_code B q.join_code else pure tt

  unfoldable pub find_owned : ℕ → ℕ → Call B Queue
  find_owned h q = request (λ w. (or_missing (only (is_owned h) (B.queues.find_one q w.queues)), w))

  unfoldable pub delete_queue_document : ℕ → Call B (Unit {0})
  delete_queue_document q =
      write (λ w. record w { queues = B.queues.delete_many (λ d. d.id == q) w.queues })

  -- What follows the deletion of the documents; its errors are ignored.
  abbrev pub settle_deletion : ℕ → Queue → Call B (Unit {0})
  settle_deletion h queue = do
    release_if_open queue
    attempt (decrement_monthly_queue_count B (some h) queue.created_at)
    forget_host B (some queue)

  unfoldable pub delete_queue : ℕ → ℕ → Call B (Unit {0})
  delete_queue h q = do
    queue ← find_owned h q
    delete_entries B q
    delete_queue_document q
    settle_deletion h queue

  -- `ExtendQueueKeysExpiry` sets times to live only, and ignores every error.
  abbrev pub extend_code_expiry : Option ℕ → Call B (Unit {0})
  extend_code_expiry none = pure tt
  extend_code_expiry (some code) = do attempt (write (λ w. w)); pure tt

  unfoldable pub extend_queue_keys_expiry : Option ℕ → Call B (Unit {0})
  extend_queue_keys_expiry code = do
    extend_code_expiry code
    attempt (write (λ w. w))
    attempt (write (λ w. w))
    pure tt

  abbrev pub extend_open : Option Plan → ℕ → Queue → Call B (Unit {0})
  extend_open plan q queue = do
    set_queue B q (λ now. with_expiry (new_expiry plan now queue) now)
    λ n.
        if ltb n.state.now (new_expiry plan n.state.now queue)
        then extend_queue_keys_expiry queue.join_code n
        else (ok tt, n)

  unfoldable pub extend_active_queue_expiry : Option Plan → ℕ → Call B (Unit {0})
  extend_active_queue_expiry plan q = do
    queue ← find_queue B q
    if is_open queue.status then extend_open plan q queue else pure tt
