-- ===== src/Queue/Calling.antt =====
-- internal/modules/queue/service/service.go: calling the next guest, and the end of a guest's stay.
pub mod Fairness
pub mod Safety
use queuebuzz.Prelude.{
  ℕ, suc, ◌+◌, Bool, true, false, Option, none, some, List, [], ◌∷◌, is_empty, if◌then◌else◌,
}
use queuebuzz.Net.{rejected, ◌>>=◌, ◌>>◌, pure, fail, write, attempt, local}
use queuebuzz.Queue.Domain.{
  Entry, Queue, Host, EntryStatus, called, left, served, skipped, is_waiting, is_served,
}
use queuebuzz.Queue.World.{Backend, World, Call}
use queuebuzz.Queue.Repository.{get_queue_entry_ids, set_idle_timer, remove_from_queue}
use queuebuzz.Queue.Lookup.{get_queue, find_queue, get_entry, rehydrate_queue, forget_dashboard}

module _ (B : Backend) where
  unfoldable pub update_entry_status : ℕ → EntryStatus → Call B (Unit {0})
  update_entry_status e s = write (λ w. record w {
    entries = B.entries.update_one e (λ d. record d { status = s; updated_at = w.now }) w.entries;
  })

  -- The body of the loop of `CallNextUser`, for an entry that waits.
  unfoldable pub call_entry : ℕ → ℕ → Entry → Call B Entry
  call_entry q i e = do
    update_entry_status i called
    attempt (set_idle_timer B q e.id)
    queue ← attempt (get_queue B q)
    local (forget_dashboard B queue)
    pure (record e { status = called })

  abbrev pub call_or_next : ℕ → ℕ → Option Entry → Call B Entry → Call B Entry
  call_or_next q i none next = next
  call_or_next q i (some e) next = if is_waiting e.status then call_entry q i e else next

  -- The loop of `CallNextUser`: an entry that cannot be read is passed over.
  unfoldable pub call_first : ℕ → List ℕ → Call B Entry
  call_first q [] = fail (rejected 400)
  call_first q (i ∷ is) =
      let next = call_first q is in attempt (get_entry B i) >>= λ e. call_or_next q i e next

  abbrev pub ids_or_rehydrated : ℕ → List ℕ → Call B (List ℕ)
  ids_or_rehydrated q ids = if is_empty ids then rehydrate_queue B q else pure ids

  unfoldable pub call_next_user : ℕ → Call B Entry
  call_next_user q = do
    found ← get_queue_entry_ids B q
    ids ← ids_or_rehydrated q found
    call_first q ids

  abbrev pub finished : EntryStatus → ℕ → Entry → Entry
  finished s now d = record d {
    status = s;
    finished_at = some now;
    served_at = if is_served s then some now else d.served_at;
  }

  abbrev pub served_once_more : Host → Host
  served_once_more h = record h { total_served_count = h.total_served_count + 1 }

  -- `IncrementTotalServedCount`, for a served guest of a registered host.
  abbrev pub count_served : EntryStatus → Option Queue → Call B (Unit {0})
  count_served s none = pure tt
  count_served s (some q) = elim q.host_id [
    | none ↦ pure tt
    | some h ↦
        if is_served s
        then (do
          attempt (write (λ w. record w { hosts = B.hosts.update_one h served_once_more w.hosts }))
          pure tt)
        else pure tt
  ]

  unfoldable pub finish_user_session : ℕ → EntryStatus → Call B (Unit {0})
  finish_user_session e s = do
    entry ← get_entry B e
    write (λ w. record w { entries = B.entries.update_one e (finished s w.now) w.entries })
    attempt (remove_from_queue B entry.queue_id e)
    queue ← attempt (find_queue B entry.queue_id)
    local (forget_dashboard B queue)
    count_served s queue

  unfoldable pub remove_user : ℕ → Call B (Unit {0})
  remove_user e = finish_user_session e left

  unfoldable pub serve_user : ℕ → Call B (Unit {0})
  serve_user e = finish_user_session e served

  unfoldable pub skip_user : ℕ → Call B (Unit {0})
  skip_user e = finish_user_session e skipped
