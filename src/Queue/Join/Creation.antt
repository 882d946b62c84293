-- ===== src/Queue/Join/Creation.antt =====
-- `CreateEntryForQueue` of internal/modules/queue/service/service.go: what a new guest gets.
use queuebuzz.Prelude.{
  ℕ, suc, ◌≡◌, ◌∙◌, ap, refl, ◌==◌, ◌++◌, get_or, if◌then◌else◌, false, none, some, Option-cases,
  inl, inr, List, [], ◌∷◌, length,
}
use queuebuzz.Store.{Below}
use queuebuzz.Net.{Net, Reply, ok, err, rejected, calm}
use queuebuzz.Queue.Domain.{Entry, Queue, waiting}
use queuebuzz.Queue.Ticket.{format_ticket}
use queuebuzz.Queue.World.{Backend, World}
use queuebuzz.Queue.Repository.{positions_of, next_ticket, has_ticket_counter}
use queuebuzz.Queue.Lookup.{forget_dashboard}
use queuebuzz.Queue.Join.{
  Fresh, candidate, insert_candidate, insert_entry, enter_positions, ensure_ticket_counter,
  create_entry_for_queue,
}
use queuebuzz.Queue.Join.Positions.{enter_positions-last}

-- The entry of a new guest, field by field: what the guest has given, the ticket, the new codes, and
-- the status and the time of the creation.
abbrev pub waiting_entry : Entry → List ℕ → Fresh → ℕ → Entry
waiting_entry given ticket fresh now = record {
  id = fresh.id;
  token = fresh.token;
  queue_id = given.queue_id;
  ticket_no = ticket;
  verify_code = fresh.verify_code;
  status = waiting;
  email = given.email;
  phone = given.phone;
  party_size = given.party_size;
  name = given.name;
  created_by = given.created_by;
  served_at = given.served_at;
  finished_at = given.finished_at;
  created_at = now;
  updated_at = now;
}

module _ (B : Backend) where
  forget_dashboard-entries :
      (queue : Queue) (w : World B) → (forget_dashboard B (some queue) w).entries ≡ w.entries
  forget_dashboard-entries queue w = elim (Option-cases queue.host_public_id) [
    | inl x ↦ rw (forget_dashboard, x) refl
    | inr (h, x) ↦ rw (forget_dashboard, x) refl
  ]

  forget_dashboard-counters :
      (queue : Queue) (w : World B) → (forget_dashboard B (some queue) w).counters ≡ w.counters
  forget_dashboard-counters queue w = elim (Option-cases queue.host_public_id) [
    | inl x ↦ rw (forget_dashboard, x) refl
    | inr (h, x) ↦ rw (forget_dashboard, x) refl
  ]

  forget_dashboard-positions :
      (queue : Queue) (w : World B) → (forget_dashboard B (some queue) w).positions ≡ w.positions
  forget_dashboard-positions queue w = elim (Option-cases queue.host_public_id) [
    | inl x ↦ rw (forget_dashboard, x) refl
    | inr (h, x) ↦ rw (forget_dashboard, x) refl
  ]

  -- A guest who has joined: the stored entry, the counter of the tickets and the set of the queue.
  pub record Joined (entry : Entry) (fresh : Fresh) (n : ℕ) (w w' : World B) : Type 0 where
    pub stored :
        (i : ℕ)
        → B.entries.find_one i w'.entries ≡ (
            if fresh.id == i
            then some (waiting_entry entry (format_ticket (suc n)) fresh w.now)
            else B.entries.find_one i w.entries)
    pub counter : B.counters.get entry.queue_id w'.counters ≡ some (suc n)
    pub members :
        B.sorted.range (positions_of B entry.queue_id w')
        ≡ B.sorted.range (positions_of B entry.queue_id w) ++ fresh.id ∷ []

  -- What the attempts give: the first candidate that the collection takes.
  abbrev pub first_inserted : Entry → List ℕ → List Fresh → World B → Reply Entry × Net (World B)
  first_inserted entry ticket [] w = (err (rejected 500), calm w)
  first_inserted entry ticket (fresh ∷ more) w =
      let d = candidate B entry ticket fresh w.now in
      let rest = first_inserted entry ticket more w in
      elim (B.entries.insert_one d w.entries) [
        | none ↦ rest
        | some c ↦ (ok d, calm (record w { entries = c }))
      ]

  -- When every call is answered, the new entry is the first candidate whose codes the collection
  -- does not have yet, and the duplicates before it leave nothing; if all are duplicates, the
  -- result is an error and nothing changes.
  insert_entry-first_inserted :
      (entry : Entry) (ticket : List ℕ) (attempts : List Fresh) (w : World B)
      → insert_entry B entry ticket attempts (calm w) ≡ first_inserted entry ticket attempts w
  unfolding insert_entry insert_candidate calm
  insert_entry-first_inserted entry ticket [] w = refl
  insert_entry-first_inserted entry ticket (fresh ∷ more) w =
      elim (Option-cases (B.entries.insert_one (candidate B entry ticket fresh w.now) w.entries)) [
        | inl x ↦ rw (x, first_inserted) (insert_entry-first_inserted entry ticket more w)
        | inr (c, x) ↦ rw (x, first_inserted) refl
      ]

  -- When every call is answered, positions are not manual, the counter is there, the codes are new
  -- and the clock is past all scores of the set, a new guest gets the next ticket, which the counter then stands at, and the
  -- last position, as the last member of the set, and the entry, which waits, with the ticket, the
  -- new codes and the time, is stored and no other entry changes.
  pub create_entry_for_queue-Joined :
      (queue : Queue) (entry : Entry) (fresh : Fresh) (more : List Fresh) (n : ℕ)
      (c : B.entries.Col) (w : World B)
      → queue.manual_positioning ≡ false
      → B.counters.get entry.queue_id w.counters ≡ some n
      → B.entries.insert_one (waiting_entry entry (format_ticket (suc n)) fresh w.now) w.entries
        ≡ some c
      → B.sorted.score fresh.id (positions_of B entry.queue_id w) ≡ none
      → Below (B.sorted.last_score (positions_of B entry.queue_id w)) w.now
      → ((create_entry_for_queue B (some queue) entry (fresh ∷ more) (calm w)).0
          ≡ ok (record {
            entry = waiting_entry entry (format_ticket (suc n)) fresh w.now;
            position = suc (length (B.sorted.range (positions_of B entry.queue_id w)));
          }))
        × Joined entry fresh n w
            (create_entry_for_queue B (some queue) entry (fresh ∷ more) (calm w)).1.state
  unfolding create_entry_for_queue ensure_ticket_counter has_ticket_counter next_ticket insert_entry
      insert_candidate calm enter_positions format_ticket
  create_entry_for_queue-Joined queue entry fresh more n c w m k stored s b =
      rw
        (
          k,
          k,
          stored,
          m,
          enter_positions-last B queue (candidate B entry (format_ticket (suc n)) fresh w.now)
              (record w {
                counters = B.counters.put entry.queue_id (suc n) w.counters;
                entries = c;
              })
              s b,
        )
        (
          refl,
          record {
            stored = λ i.
                ap (B.entries.find_one i) (forget_dashboard-entries queue _)
                ∙ B.entries.find_one-insert_one i
                    (waiting_entry entry (format_ticket (suc n)) fresh w.now) w.entries c stored;
            counter =
                ap (B.counters.get entry.queue_id) (forget_dashboard-counters queue _)
                ∙ B.counters.get-put entry.queue_id (suc n) w.counters;
            members =
                ap (λ k. B.sorted.range (get_or (B.positions.get entry.queue_id k) B.sorted.empty))
                  (forget_dashboard-positions queue _)
                ∙ rw (B.positions.get-put entry.queue_id _ w.positions)
                    (B.sorted.range-add_last w.now fresh.id (positions_of B entry.queue_id w) s b);
          },
        )
