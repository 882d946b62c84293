-- ===== src/Examples/Queue.antt =====
-- The queue module's theorems at a small store.
use queuebuzz.Prelude.{
  if◌then◌else◌, ℕ, ◌≡◌, ◌≢◌, refl, ◌==◌, true, false, none, some, List, [], ◌∷◌, arith, any,
  is_some, only,
}
use queuebuzz.Net.{answered, request_lost, reply_lost, ok, ◌>>◌, calm}
use queuebuzz.Queue.Domain.{Entry, waiting, called, served, is_live}
use queuebuzz.Queue.Ticket.{format_ticket}
use queuebuzz.Queue.Repository.{positions_of, generate_join_code, next_ticket}
use queuebuzz.Queue.Repository.JoinCodes.{claimed, generate_join_code-claimed}
use queuebuzz.Queue.Lookup.{of_queue, is_found, rehydrate_queue, get_position}
use queuebuzz.Queue.Lookup.Recovery.{rehydrate_queue-members, get_position-is_found}
use queuebuzz.Queue.Join.{Fresh, candidate, create_entry_for_queue, ensure_ticket_counter}
use queuebuzz.Queue.Join.Creation.{waiting_entry, Joined, create_entry_for_queue-Joined}
use queuebuzz.Queue.Join.Tickets.{TicketsBelow, restored_ticket-is_new}
use queuebuzz.Queue.Calling.{call_next_user, finish_user_session}
use queuebuzz.Queue.Calling.Fairness.{Calls, call_next_user-Calls}
use queuebuzz.Queue.Calling.Safety.{OneCalled, call_next_user-OneCalled}
use queuebuzz.Queue.Closing.{terminate_queue, expire_queue}
use queuebuzz.Queue.Closing.Termination.{Terminated, terminate_queue-Terminated}
use queuebuzz.Queue.Closing.Expiry.{
  expired_queue, kept_entry, expire_queue-kept, expire_queue-lost_read,
}
use queuebuzz.Queue.Lifecycle.{Ended, Counted, finish_user_session-Ended}
use queuebuzz.Queue.Timers.Return.{status_of, expire_timers, finish_user_session-expire_timers}
use queuebuzz.Examples.World.{guest, cafe, backend, world, lost}

call_next_user-Calls_example :
    Calls backend (some (2, guest waiting 2)) world (call_next_user backend 7 (calm world))
call_next_user-Calls_example = call_next_user-Calls backend 7 world refl

call_next_user-OneCalled_example :
    OneCalled backend world.entries 200
      (call_next_user backend 7
        (record (calm world) { fates = reply_lost ∷ answered ∷ reply_lost ∷ [] })).1.state.entries
unfolding calm
call_next_user-OneCalled_example =
    call_next_user-OneCalled backend world.entries 200 7
      (record (calm world) { fates = reply_lost ∷ answered ∷ reply_lost ∷ [] }) refl refl

finish_user_session-Ended_example :
    ((finish_user_session backend 1 served (calm world)).0 ≡ ok tt)
    × Ended backend served 1
        (guest called 1)
        world
        (finish_user_session backend 1 served (calm world)).1.state
    × Counted backend served
        (some cafe)
        world
        (finish_user_session backend 1 served (calm world)).1.state
finish_user_session-Ended_example =
    finish_user_session-Ended backend 1 served (guest called 1) world refl

finish_user_session-expire_timers_example :
    (backend.timers.get
        (7, 1)
        (finish_user_session backend 1 served (calm world)).1.state.idle_timers
      ≡ some tt)
    × (status_of backend 1
          (expire_timers backend 7 1
            (calm (finish_user_session backend 1 served (calm world)).1.state)).1.state
        ≡ some waiting)
finish_user_session-expire_timers_example =
    finish_user_session-expire_timers backend 7 1 served (guest called 1) world refl refl

rehydrate_queue-members_example :
    any
      (λ m. m == 2)
      (backend.sorted.range
        (positions_of backend 7 (rehydrate_queue backend 7 (calm lost)).1.state))
    ≡ true
rehydrate_queue-members_example = rehydrate_queue-members backend 7 2 lost refl

get_position-is_found_example : is_found (get_position backend 7 2 (calm lost)).0 ≡ true
get_position-is_found_example = get_position-is_found backend 7 2 lost refl refl

terminate_queue-Terminated_example :
    ((terminate_queue backend 7 (calm world)).0
      ≡ ok (backend.entries.find (of_queue 7 is_live) world.entries))
    × Terminated backend 7 cafe world (terminate_queue backend 7 (calm world)).1.state
terminate_queue-Terminated_example = terminate_queue-Terminated backend 7 cafe world refl refl

expire_queue-kept_example :
    (backend.queues.find_one 7
        (expire_queue backend 7 (some 1234) (some 5) (some false) (calm world)).1.state.queues
      ≡ some (expired_queue 200 cafe))
    × ((i : ℕ)
        → backend.entries.find_one i
            (expire_queue backend 7 (some 1234) (some 5) (some false) (calm world)).1.state.entries
          ≡ kept_entry backend 7 200 (some false) (backend.entries.find_one i world.entries))
expire_queue-kept_example =
    expire_queue-kept backend 7 5 (some 1234) (some 5) (some false) cafe world refl refl

expire_queue-lost_read_example :
    (backend.queues.find_one 7
        (expire_queue backend 7
          (some 1234)
          (some 5)
          none
          (record (calm world) { fates = answered ∷ request_lost ∷ [] })).1.state.queues
      ≡ none)
    × ((i : ℕ)
        → is_some (
            only
              (λ d. d.queue_id == 7)
              (backend.entries.find_one i
                (expire_queue backend 7
                  (some 1234)
                  (some 5)
                  none
                  (record (calm world) { fates = answered ∷ request_lost ∷ [] })).1.state.entries))
          ≡ false)
expire_queue-lost_read_example = expire_queue-lost_read backend 7 (some 1234) (some 5) world

lost-TicketsBelow : TicketsBelow backend 9999 7 lost
lost-TicketsBelow i e h k = (i, ground arith, ground arith)

restored_ticket-is_new_example :
    (t : List ℕ) × (((ensure_ticket_counter backend 7 >> next_ticket backend 7) (calm lost)).0
      ≡ ok t)
    × (format_ticket 2 ≢ t)
restored_ticket-is_new_example =
    restored_ticket-is_new backend 7 2 (guest waiting 2) lost refl lost-TicketsBelow refl refl

generate_join_code-claimed_example :
    generate_join_code backend 8 (1234 ∷ 4321 ∷ []) (calm world)
    ≡ claimed backend 8 (some 4321) world
generate_join_code-claimed_example = generate_join_code-claimed backend 8 (1234 ∷ 4321 ∷ []) world

abbrev fresh : Fresh
fresh = record { id = 3; token = 3; verify_code = 30 }

-- A candidate whose identifier is taken.
abbrev stale : Fresh
stale = record { id = 2; token = 2; verify_code = 20 }

abbrev third : Entry
third = candidate backend (guest called 9) (format_ticket 3) fresh 200

abbrev with_third : backend.entries.Col
with_third = record {
  keys = 3 ∷ 1 ∷ 2 ∷ [];
  doc = λ i. if i == 3 then third else world.entries.doc i;
}

create_entry_for_queue-Joined_example :
    ((create_entry_for_queue backend (some cafe) (guest called 9) (fresh ∷ []) (calm world)).0
      ≡ ok (record {
        entry = waiting_entry (guest called 9) (format_ticket 3) fresh 200;
        position = 3;
      }))
    × Joined backend
        (guest called 9)
        fresh
        2
        world
        (create_entry_for_queue backend
          (some cafe)
          (guest called 9)
          (fresh ∷ [])
          (calm world)).1.state
create_entry_for_queue-Joined_example =
    create_entry_for_queue-Joined backend cafe (guest called 9) fresh [] 2 with_third world refl
      refl refl refl (omega arith)
