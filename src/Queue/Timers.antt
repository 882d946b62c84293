-- ===== src/Queue/Timers.antt =====
-- The handlers of expired timers of internal/modules/queue/service/expiry.go, and the guest's
-- answers `MarkArrived` and `ConfirmStillHere` of internal/modules/customer/service/service.go.
-- Redis has removed the key of a timer when its handler runs.
pub mod Return
use queuebuzz.Prelude.{ℕ, Option, none, some, ◌==◌, if◌then◌else◌}
use queuebuzz.Net.{◌>>=◌, ◌>>◌, pure, write, attempt}
use queuebuzz.Queue.Domain.{Entry, EntryStatus, idle, waiting, arrived}
use queuebuzz.Queue.World.{Backend, World, Call}
use queuebuzz.Queue.Repository.{
  set_grace_timer, clear_idle_timer, clear_grace_timer, set_user_session,
}

module _ (B : Backend) where
  abbrev pub set_status : ℕ → EntryStatus → Call B (Unit {0})
  set_status e s =
      write (λ w. record w {
        entries = B.entries.update_one e (λ d. record d { status = s }) w.entries;
      })

  -- The events that are published afterwards change nothing here.
  unfoldable pub handle_idle_timer_expiry : ℕ → ℕ → Call B (Unit {0})
  handle_idle_timer_expiry q e = do set_status e idle; attempt (set_grace_timer B q e); pure tt

  unfoldable pub handle_grace_timer_expiry : ℕ → ℕ → Call B (Unit {0})
  handle_grace_timer_expiry q e = set_status e waiting

  -- The update of an entry that belongs to the queue.
  abbrev pub set_status_in : ℕ → ℕ → EntryStatus → Call B (Unit {0})
  set_status_in q e s = write (λ w. record w {
    entries =
        B.entries.update_one e
          (λ d. if d.queue_id == q then record d { status = s; updated_at = w.now } else d)
          w.entries;
  })

  unfoldable pub mark_arrived : ℕ → ℕ → Call B (Unit {0})
  mark_arrived q e = do
    set_status_in q e arrived
    attempt (set_user_session B q e)
    attempt (clear_idle_timer B q e)
    attempt (clear_grace_timer B q e)
    pure tt

  unfoldable pub confirm_still_here : ℕ → ℕ → Call B (Unit {0})
  confirm_still_here q e = do set_status_in q e waiting; attempt (clear_grace_timer B q e); pure tt
