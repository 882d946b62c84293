-- ===== src/Queue/Timers/Return.antt =====
-- internal/modules/queue/service/expiry.go after internal/modules/queue/service/service.go: a timer
-- that expires when its entry's stay is over.
use queuebuzz.Prelude.{ℕ, ◌≡◌, refl, Option, some, ==_self}
use mathlib.Core.Option
use queuebuzz.Net.{◌>>◌, calm}
use queuebuzz.Queue.Domain.{Entry, EntryStatus, idle, waiting}
use queuebuzz.Queue.World.{Backend, World, Call}
use queuebuzz.Queue.Repository.{set_grace_timer}
use queuebuzz.Queue.Calling.{finish_user_session}
use queuebuzz.Queue.Lifecycle.{finish_user_session-Ended}
use queuebuzz.Queue.Timers.{handle_idle_timer_expiry, handle_grace_timer_expiry}

module _ (B : Backend) where
  abbrev pub status_of : ℕ → World B → Option EntryStatus
  status_of e w = Option.map (λ d. d.status) (B.entries.find_one e w.entries)

  -- An idle timer and the grace timer that follows it, both expired.
  abbrev pub expire_timers : ℕ → ℕ → Call B (Unit {0})
  expire_timers q e = handle_idle_timer_expiry B q e >> handle_grace_timer_expiry B q e

  expire_timers-status :
      (q e : ℕ) (d : Entry) (w : World B)
      → B.entries.find_one e w.entries ≡ some d
      → status_of e (expire_timers q e (calm w)).1.state ≡ some waiting
  unfolding handle_idle_timer_expiry handle_grace_timer_expiry set_grace_timer calm
  expire_timers-status q e d w h =
      rw
        (
          B.entries.find_one-update_one e e (λ d. record d { status = waiting }) _ (λ d. refl),
          B.entries.find_one-update_one e e (λ d. record d { status = idle }) w.entries (λ d. refl),
          ==_self e,
          h,
        )
        refl

  -- When every call is answered, ending the stay of an entry whose idle timer is set leaves the timer
  -- set, and if that timer and the grace timer that its handler starts then expire with every call
  -- of their handlers answered, the entry waits again, whatever status the end of its stay gave it.
  pub finish_user_session-expire_timers :
      (q e : ℕ) (s : EntryStatus) (d : Entry) (w : World B)
      → B.entries.find_one e w.entries ≡ some d
      → B.timers.get (q, e) w.idle_timers ≡ some tt
      → (B.timers.get (q, e) (finish_user_session B e s (calm w)).1.state.idle_timers ≡ some tt)
        × (status_of e
              (expire_timers q e (calm (finish_user_session B e s (calm w)).1.state)).1.state
            ≡ some waiting)
  finish_user_session-expire_timers q e s d w h t =
      let end = (finish_user_session-Ended B e s d w h).1 in
      (rw end.timers.0 t, expire_timers-status q e _ _ end.recorded)
