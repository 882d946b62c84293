-- ===== src/Queue/Closing/Pausing.antt =====
-- `PauseQueue`, `ResumeQueue` and `updateQueueStatus` of
-- internal/modules/queue/service/service.go.
use queuebuzz.Prelude.{
  ℕ, ◌≡◌, refl, ◌∙◌, ap, Option, none, some, Option-cases, inl, inr, ◌==◌, ==_self, arith,
  if◌then◌else◌,
}
use queuebuzz.Net.{ok, ◌>>◌, calm}
use queuebuzz.Queue.Domain.{Queue, QueueStatus, active, paused, changed_to}
use queuebuzz.Queue.World.{Backend, World}
use queuebuzz.Queue.Lookup.{settle-or_missing, get_queue, forget_dashboard}
use queuebuzz.Queue.Closing.{with_status, update_queue_status, pause_queue, resume_queue}

module _ (B : Backend) where
  forget_dashboard-queues :
      (queue : Option Queue) (w : World B) → (forget_dashboard B queue w).queues ≡ w.queues
  forget_dashboard-queues none w = refl
  forget_dashboard-queues (some q) w = elim (Option-cases q.host_public_id) [
    | inl x ↦ rw (forget_dashboard, x) refl
    | inr (h, x) ↦ rw (forget_dashboard, x) refl
  ]

  forget_dashboard-now :
      (queue : Option Queue) (w : World B) → (forget_dashboard B queue w).now ≡ w.now
  forget_dashboard-now none w = refl
  forget_dashboard-now (some q) w = elim (Option-cases q.host_public_id) [
    | inl x ↦ rw (forget_dashboard, x) refl
    | inr (h, x) ↦ rw (forget_dashboard, x) refl
  ]

  -- What a new status leaves: the clock, and the queues but for the one.
  update_queue_status-calm :
      (q : ℕ) (s : QueueStatus) (w : World B)
      → (v : World B) × (update_queue_status B q s (calm w) ≡ (ok tt, calm v))
        × (v.queues ≡ B.queues.update_one q (with_status s (changed_to s) w.now) w.queues)
        × (v.now ≡ w.now)
  unfolding update_queue_status get_queue calm
  update_queue_status-calm q s w = (
    (update_queue_status B q s (calm w)).1.state,
    rw (settle-or_missing _ _) refl,
    rw (settle-or_missing _ _) (forget_dashboard-queues _ _),
    rw (settle-or_missing _ _) (forget_dashboard-now _ _),
  )

  -- When every call is answered, giving a queue a status succeeds whatever status it has: the queue
  -- has the new status, the time and one more line in its log, and no other queue changes. Resuming
  -- a queue that was closed therefore opens it again.
  update_queue_status-recorded :
      (q : ℕ) (s : QueueStatus) (queue : Queue) (w : World B)
      → B.queues.find_one q w.queues ≡ some queue
      → ((update_queue_status B q s (calm w)).0 ≡ ok tt)
        × ((i : ℕ)
            → B.queues.find_one i (update_queue_status B q s (calm w)).1.state.queues ≡ (
                if q == i
                then some (with_status s (changed_to s) w.now queue)
                else B.queues.find_one i w.queues))
  unfolding calm
  update_queue_status-recorded q s queue w h =
      let (v, run, queues, now) = update_queue_status-calm q s w in
      rw (run, queues)
        (
          refl,
          λ i. ground (
            arith,
            h,
            ap (λ j. B.queues.find_one j w.queues) {x = q} {y = i},
            B.queues.find_one-update_one q i (with_status s (changed_to s) w.now) w.queues
                (λ d. refl),
          ),
        )

  -- When every call is answered, a pause and a resumption leave a queue active, with both in its
  -- log.
  pause_queue-resume_queue :
      (q : ℕ) (queue : Queue) (w : World B)
      → B.queues.find_one q w.queues ≡ some queue
      → B.queues.find_one q ((pause_queue B q >> resume_queue B q) (calm w)).1.state.queues
        ≡ some (
            with_status active
              (changed_to active)
              w.now
              (with_status paused (changed_to paused) w.now queue))
  unfolding pause_queue resume_queue calm
  pause_queue-resume_queue q queue w h =
      let (v, run, queues, now) = update_queue_status-calm q paused w in
      let paused_queue : B.queues.find_one q v.queues
          ≡ some (with_status paused (changed_to paused) w.now queue) =
        rw queues (
          B.queues.find_one-update_one q q (with_status paused (changed_to paused) w.now) w.queues
            (λ d. refl)
          ∙ rw (==_self q, h) refl) in
      let (r, found) =
        update_queue_status-recorded q active (with_status paused (changed_to paused) w.now queue) v
          paused_queue in
      rw run (found q ∙ rw (==_self q, now) refl)
