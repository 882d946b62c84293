-- ===== src/Queue/Closing.antt =====
-- `TerminateQueue`, `PauseQueue` and `ResumeQueue` of internal/modules/queue/service/service.go, and
-- the sweep of internal/modules/queue/service/expiry.go.
pub mod Pausing
pub mod Termination
pub mod Expiry
use queuebuzz.Prelude.{
  ℕ, Bool, true, false, not, ◌&&◌, Option, none, some, List, [], ◌∷◌, ◌++◌, is_empty, leb, get_or,
  if◌then◌else◌, ◌==◌,
}
use queuebuzz.Net.{
  Reply, ok, err, ◌>>=◌, ◌>>◌, pure, fail, read, write, attempt, observe, give, local,
}
use queuebuzz.Queue.Domain.{
  Entry, Queue, QueueStatus, active, paused, closed, expired, LogValue, completed, changed_to,
  skipped, is_live,
}
use queuebuzz.Queue.World.{Backend, World, Call}
use queuebuzz.Queue.Repository.{
  delete_queue_keys, release_join_code, invalidate_history_summary, invalidate_host_history,
}
use queuebuzz.Queue.Lookup.{get_queue, find_queue, of_queue, forget_dashboard}

abbrev pub with_status : QueueStatus → LogValue → ℕ → Queue → Queue
with_status s value now q = record q {
  status = s;
  updated_at = now;
  activity_logs = q.activity_logs ++ record { value = value; timestamp = now } ∷ [];
}

abbrev pub with_end : QueueStatus → LogValue → ℕ → Queue → Queue
with_end s value now q = record (with_status s value now q) { closed_at = some now }

abbrev pub skip_at : ℕ → Entry → Entry
skip_at now e = record e { status = skipped; finished_at = some now; updated_at = now }

module _ (B : Backend) where
  abbrev pub set_queue : ℕ → (ℕ → Queue → Queue) → Call B (Unit {0})
  set_queue q f = write (λ w. record w { queues = B.queues.update_one q (f w.now) w.queues })

  unfoldable pub update_queue_status : ℕ → QueueStatus → Call B (Unit {0})
  update_queue_status q s = do
    set_queue q (with_status s (changed_to s))
    queue ← attempt (get_queue B q)
    local (forget_dashboard B queue)

  unfoldable pub pause_queue : ℕ → Call B (Unit {0})
  pause_queue q = update_queue_status q paused

  unfoldable pub resume_queue : ℕ → Call B (Unit {0})
  resume_queue q = update_queue_status q active

  abbrev pub forget_host : Option Queue → Call B (Unit {0})
  forget_host none = pure tt
  forget_host (some queue) = elim queue.host_public_id [
    | none ↦ pure tt
    | some h ↦ do attempt (invalidate_history_summary B h); local (forget_dashboard B (some queue))
  ]

  abbrev pub forget_summary : Option Queue → Call B (Unit {0})
  forget_summary none = pure tt
  forget_summary (some queue) = elim queue.host_public_id [
    | none ↦ pure tt
    | some h ↦ do attempt (invalidate_history_summary B h); pure tt
  ]

  unfoldable pub skip_live : ℕ → Call B (Unit {0})
  skip_live q = write (λ w. record w {
    entries = B.entries.update_many (of_queue q is_live) (skip_at w.now) w.entries;
  })

  abbrev pub skip_unserved : ℕ → List Entry → Call B (Unit {0})
  skip_unserved q [] = pure tt
  skip_unserved q (e ∷ es) = do attempt (skip_live q); pure tt

  abbrev pub release_code : Option ℕ → Call B (Unit {0})
  release_code none = pure tt
  release_code (some code) = do attempt (release_join_code B code); pure tt

  abbrev pub clean_up : ℕ → Option Queue → Call B (Unit {0})
  clean_up q none = pure tt
  clean_up q (some queue) = do attempt (delete_queue_keys B q); release_code queue.join_code

  abbrev pub close_down : ℕ → Option Queue → List Entry → Call B (Unit {0})
  close_down q queue unserved = do forget_host queue; skip_unserved q unserved; clean_up q queue

  -- A failed search leaves no entry to skip; the update's error is the result.
  unfoldable pub terminate_queue : ℕ → Call B (List Entry)
  terminate_queue q = do
    queue ← attempt (get_queue B q)
    found ← attempt (read (λ w. B.entries.find (of_queue q is_live) w.entries))
    set_queue q (with_end closed completed)
    close_down q queue (get_or found [])
    pure (get_or found [])

  -- The plan of the host: `none` if it cannot be had, or whether it is free.
  abbrev pub keeps_entries : Option Bool → Bool
  keeps_entries none = false
  keeps_entries (some is_free) = not is_free

  abbrev pub without_contact : ℕ → Entry → Entry
  without_contact now e = record e {
    status = skipped;
    finished_at = some now;
    email = none;
    phone = none;
  }

  unfoldable pub delete_entries : ℕ → Call B (Unit {0})
  delete_entries q =
      write (λ w. record w { entries = B.entries.delete_many (λ e. e.queue_id == q) w.entries })

  unfoldable pub anonymise_live : ℕ → Call B (Unit {0})
  anonymise_live q = write (λ w. record w {
    entries = B.entries.update_many (of_queue q is_live) (without_contact w.now) w.entries;
  })

  abbrev pub delete_anonymous : ℕ → Option Queue → Call B (Unit {0})
  delete_anonymous q queue = do
    attempt (delete_entries q)
    attempt (write (λ w. record w { queues = B.queues.delete_many (λ d. d.id == q) w.queues }))
    pure tt

  abbrev pub host_of : Option Queue → Option ℕ
  host_of none = none
  host_of (some queue) = queue.host_id

  abbrev pub delete_if_anonymous : ℕ → Option Queue → Call B (Unit {0})
  delete_if_anonymous q queue = elim (host_of queue) [
    | none ↦ delete_anonymous q queue
    | some h ↦ pure tt
  ]

  abbrev pub forget_history : Option ℕ → Option Queue → Call B (Unit {0})
  forget_history none queue = pure tt
  forget_history (some h) queue = do attempt (invalidate_host_history B h); forget_summary queue

  -- `expireQueue`; every error is ignored. Guests are notified and events published meanwhile.
  unfoldable pub expire_queue : ℕ → Option ℕ → Option ℕ → Option Bool → Call B (Unit {0})
  expire_queue q join_code host plan = do
    attempt (read (λ w. B.entries.find (of_queue q is_live) w.entries))
    queue ← attempt (find_queue B q)
    attempt (set_queue q (with_end expired (changed_to expired)))
    release_code join_code
    attempt (delete_queue_keys B q)
    attempt (if keeps_entries plan then anonymise_live q else delete_entries q)
    delete_if_anonymous q queue
    forget_history host queue
