-- ===== src/Queue/Join.antt =====
-- `CreateEntryForQueue` and `ensureTicketCounter` of internal/modules/queue/service/service.go.
-- The random identifiers and codes of the attempts are an argument. `ProcessIdentity`, which only
-- fills fields that the model leaves out, is skipped.
pub mod Creation
pub mod Positions
pub mod Tickets
use queuebuzz.Prelude.{
  ℕ, suc, ◌+◌, Bool, true, false, Option, none, some, List, [], ◌∷◌, if◌then◌else◌, get_or,
}
use queuebuzz.Net.{
  Net, Reply, ok, err, Error, duplicate_key, rejected, ◌>>=◌, ◌>>◌, pure, fail, request, attempt,
  local,
}
use queuebuzz.Queue.Domain.{Entry, Queue, waiting}
use queuebuzz.Queue.Ticket.{parse_ticket}
use queuebuzz.Queue.World.{Backend, World, Call}
use queuebuzz.Queue.Repository.{has_ticket_counter, set_ticket_counter, next_ticket, add_to_queue}
use queuebuzz.Queue.Lookup.{or_missing, get_queue, get_position, forget_dashboard}

-- What the generators give for one attempt.
pub record Fresh : Type 0 where
  pub id : ℕ
  pub token : ℕ
  pub verify_code : ℕ

pub record JoinResult : Type 0 where
  pub entry : Entry
  pub position : ℕ

-- The number of the last ticket: 0 if there is none or it cannot be scanned.
unfoldable pub last_number : Option (List ℕ) → ℕ
last_number none = 0
last_number (some t) = get_or (parse_ticket t) 0

abbrev pub is_duplicate : Error → Bool
is_duplicate duplicate_key = true
is_duplicate _ = false

module _ (B : Backend) where
  unfoldable pub restore_counter : ℕ → Call B (Unit {0})
  restore_counter q = do
    t ← attempt (request (λ w. (or_missing (B.last_ticket q w.entries), w)))
    attempt (get_queue B q)
    set_ticket_counter B q (last_number t)

  unfoldable pub ensure_ticket_counter : ℕ → Call B (Unit {0})
  ensure_ticket_counter q = do
    exists ← has_ticket_counter B q
    if exists then pure tt else restore_counter q

  abbrev pub candidate : Entry → List ℕ → Fresh → ℕ → Entry
  candidate entry ticket fresh now = record entry {
    ticket_no = ticket;
    id = fresh.id;
    token = fresh.token;
    verify_code = fresh.verify_code;
    status = waiting;
    created_at = now;
    updated_at = now;
  }

  abbrev pub inserted : Entry → World B → Option B.entries.Col → Reply Entry × World B
  inserted d w none = (err duplicate_key, w)
  inserted d w (some c) = (ok d, record w { entries = c })

  unfoldable pub insert_candidate : Entry → List ℕ → Fresh → Call B Entry
  insert_candidate entry ticket fresh = request (λ w.
      let d = candidate entry ticket fresh w.now in inserted d w (B.entries.insert_one d w.entries))

  abbrev pub inserted_or_next :
      Reply Entry × Net (World B) → Call B Entry → Reply Entry × Net (World B)
  inserted_or_next (ok d, n) next = (ok d, n)
  inserted_or_next (err e, n) next = if is_duplicate e then next n else (err e, n)

  -- The loop over the attempts: a duplicate key is tried again with new codes.
  unfoldable pub insert_entry : Entry → List ℕ → List Fresh → Call B Entry
  insert_entry entry ticket [] n = (err (rejected 500), n)
  insert_entry entry ticket (fresh ∷ more) n =
      inserted_or_next (insert_candidate entry ticket fresh n) (insert_entry entry ticket more)

  -- A position of -1 becomes 0.
  abbrev pub one_based : Option (Option ℕ) → ℕ
  one_based (some (some i)) = suc i
  one_based _ = 0

  unfoldable pub enter_positions : Queue → Entry → Call B ℕ
  enter_positions queue d = do
    add_to_queue B d.queue_id d.id d.created_at
    pos ← attempt (get_position B d.queue_id d.id)
    pure (one_based pos)

  abbrev pub given_queue : Option Queue → ℕ → Call B Queue
  given_queue none q = get_queue B q
  given_queue (some queue) q = pure queue

  unfoldable pub create_entry_for_queue : Option Queue → Entry → List Fresh → Call B JoinResult
  create_entry_for_queue given entry attempts = do
    queue ← given_queue given entry.queue_id
    ensure_ticket_counter entry.queue_id
    ticket ← next_ticket B entry.queue_id
    d ← insert_entry entry ticket attempts
    position ← if queue.manual_positioning then pure 0 else enter_positions queue d
    local (forget_dashboard B (some queue))
    pure (record { entry = d; position = position })
