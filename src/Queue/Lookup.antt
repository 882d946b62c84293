-- ===== src/Queue/Lookup.antt =====
-- internal/modules/queue/service/service.go: reading queues and entries, the position of an entry,
-- and the recovery of a lost Redis set from MongoDB.
pub mod Recovery
use queuebuzz.Prelude.{
  ℕ, suc, ◌≡◌, refl, ◌==◌, Bool, true, false, not, ◌&&◌, Option, none, some, List, [], ◌∷◌, map,
  is_empty, is_some, only, if◌then◌else◌, get_or, length, ltb,
}
use queuebuzz.Net.{
  Net, Reply, ok, err, no_documents, settle, ◌>>=◌, ◌>>◌, pure, fail, request, read, write, attempt,
  observe, give, local,
}
use queuebuzz.Queue.Domain.{Entry, Queue, EntryStatus, is_open, is_rehydrated, is_live, is_called}
use queuebuzz.Queue.World.{Backend, World, Call}
use queuebuzz.Queue.Repository.{
  rank, get_size, has_rehydrated_sentinel, set_rehydrated_sentinel, add_to_queue_bulk,
}

-- A document, or the error that there is none.
abbrev pub or_missing {ℓ} : {A : Type ℓ} → Option A → Reply A
or_missing none = err no_documents
or_missing (some a) = ok a

-- `if x, err := …; err == nil` on a search gives what it finds.
pub settle-or_missing :
    {S A : Type 0} (o : Option A) (n : Net S) → settle (or_missing o, n) ≡ (ok o, n)
settle-or_missing none n = refl
settle-or_missing (some a) n = refl

-- The filter of `GetQueue`: active or paused, and not expired.
abbrev pub is_current : ℕ → Queue → Bool
is_current now q = is_open q.status && ltb now q.expires_at

abbrev pub is_found : Reply (Option ℕ) → Bool
is_found (ok o) = is_some o
is_found (err e) = false

abbrev pub of_queue : ℕ → (EntryStatus → Bool) → Entry → Bool
of_queue q p e = (e.queue_id == q) && p e.status

module _ (B : Backend) where
  unfoldable pub get_queue : ℕ → Call B Queue
  get_queue q =
      request (λ w. (or_missing (only (is_current w.now) (B.queues.find_one q w.queues)), w))

  -- `FindOne` by `_id` alone
  unfoldable pub find_queue : ℕ → Call B Queue
  find_queue q = request (λ w. (or_missing (B.queues.find_one q w.queues), w))

  unfoldable pub get_entry : ℕ → Call B Entry
  get_entry e = request (λ w. (or_missing (B.entries.find_one e w.entries), w))

  unfoldable pub get_queue_entries : ℕ → (EntryStatus → Bool) → Call B (List Entry)
  get_queue_entries q p = read (λ w. B.entries.find (of_queue q p) w.entries)

  unfoldable pub has_called_entries : ℕ → Call B Bool
  has_called_entries q =
      read (λ w. not (is_empty (B.entries.find (of_queue q is_called) w.entries)))

  -- `InvalidateDashboardCache(*q.HostPublicID)`, where the queue was found and has a host.
  abbrev pub forget_dashboard : Option Queue → World B → World B
  forget_dashboard none w = w
  forget_dashboard (some q) w = elim q.host_public_id [
    | none ↦ w
    | some h ↦ record w { dashboards = λ i. if h == i then false else w.dashboards i }
  ]

  -- The sorted set gets the time of creation as the score. `getQueueRedisTTL` reads the queue.
  unfoldable pub refill : ℕ → List Entry → Call B (List ℕ)
  refill q entries = do
    attempt (get_queue q)
    attempt (add_to_queue_bulk B q (map (λ e. (e.created_at, e.id)) entries))
    pure (map (λ e. e.id) entries)

  unfoldable pub rehydrate_queue : ℕ → Call B (List ℕ)
  rehydrate_queue q = do
    attempt (set_rehydrated_sentinel B q)
    entries ← get_queue_entries q is_rehydrated
    if is_empty entries then pure [] else refill q entries

  abbrev pub rebuild_position : ℕ → ℕ → Reply (Option ℕ) → Call B (Option ℕ)
  rebuild_position q e first = do
    rebuilt ← attempt (rehydrate_queue q)
    elim rebuilt [ none ↦ give first | some ids ↦ rank B q e ]

  abbrev pub position_if_lost : ℕ → ℕ → Reply (Option ℕ) → Call B (Option ℕ)
  position_if_lost q e first = do
    recent ← attempt (has_rehydrated_sentinel B q)
    if get_or recent false then give first else rebuild_position q e first

  -- The set is rebuilt only if it is empty and was not rebuilt of late.
  unfoldable pub retry_position : ℕ → ℕ → Reply (Option ℕ) → Call B (Option ℕ)
  retry_position q e first = do
    size ← attempt (get_size B q)
    if get_or size 0 == 0 then position_if_lost q e first else give first

  unfoldable pub get_position : ℕ → ℕ → Call B (Option ℕ)
  get_position q e = do
    first ← observe (rank B q e)
    if is_found first then give first else retry_position q e first

  abbrev pub rebuild_count : ℕ → Call B ℕ
  rebuild_count q = do ids ← attempt (rehydrate_queue q); pure (length (get_or ids []))

  abbrev pub recount : ℕ → ℕ → Call B ℕ
  recount q count = do
    recent ← attempt (has_rehydrated_sentinel B q)
    if get_or recent false then pure count else rebuild_count q

  unfoldable pub get_waiting_count : ℕ → Call B ℕ
  get_waiting_count q = do count ← get_size B q; if count == 0 then recount q count else pure count
