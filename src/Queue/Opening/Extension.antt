-- ===== src/Queue/Opening/Extension.antt =====
-- `ExtendActiveQueueExpiry` of internal/modules/queue/service/service.go.
use queuebuzz.Prelude.{
  ℕ, ◌+◌, ◌*◌, ◌≤◌, ◌≡◌, refl, Option, none, some, if◌then◌else◌, ltb, Bool-cases, inl, inr, arith,
}
use queuebuzz.Net.{ok, calm}
use queuebuzz.Queue.Domain.{Queue, is_open}
use queuebuzz.Queue.World.{Backend, World}
use queuebuzz.Queue.Lookup.{or_missing, find_queue}
use queuebuzz.Subscription.Domain.{Plan}
use queuebuzz.Queue.Opening.{
  expiry_hours, hour, new_expiry, with_expiry, extend_queue_keys_expiry, extend_open,
  extend_active_queue_expiry,
}

new_expiry-le :
    (plan : Option Plan) (now : ℕ) (q : Queue)
    → (now ≤ new_expiry plan now q)
      × (q.created_at + expiry_hours plan * hour ≤ new_expiry plan now q)
new_expiry-le plan now q = (ground arith, ground arith)

module _ (B : Backend) where
  abbrev pub extended : Option Plan → ℕ → Queue → World B → World B
  extended plan q queue w = record w {
    queues = B.queues.update_one q (with_expiry (new_expiry plan w.now queue) w.now) w.queues;
  }

  extend_keys-calm :
      (code : Option ℕ) (w : World B) → extend_queue_keys_expiry B code (calm w) ≡ (ok tt, calm w)
  unfolding extend_queue_keys_expiry calm
  extend_keys-calm none w = refl
  extend_keys-calm (some code) w = refl

  extend_open-calm :
      (plan : Option Plan) (q : ℕ) (queue : Queue) (w : World B)
      → extend_open B plan q queue (calm w) ≡ (ok tt, calm (extended plan q queue w))
  unfolding calm
  extend_open-calm plan q queue w = elim (Bool-cases (ltb w.now (new_expiry plan w.now queue))) [
    | inl x ↦ rw x (extend_keys-calm queue.join_code (extended plan q queue w))
    | inr x ↦ rw x refl
  ]

  -- When every call is answered and the queue is there, extending it sets its end if it is active or
  -- paused and changes nothing otherwise; the end that is set does not lie in the past, and not
  -- before the limit of the plan from the creation of the queue on.
  extend_active_queue_expiry-extended :
      (plan : Option Plan) (q : ℕ) (queue : Queue) (w : World B)
      → B.queues.find_one q w.queues ≡ some queue
      → (extend_active_queue_expiry B plan q (calm w)
          ≡ (ok tt, calm (if is_open queue.status then extended plan q queue w else w)))
        × (w.now ≤ new_expiry plan w.now queue)
        × (queue.created_at + expiry_hours plan * hour ≤ new_expiry plan w.now queue)
  unfolding extend_active_queue_expiry find_queue calm
  extend_active_queue_expiry-extended plan q queue w found =
      (extends, (new_expiry-le plan w.now queue).0, (new_expiry-le plan w.now queue).1)
    where
      extends :
          extend_active_queue_expiry B plan q (calm w)
          ≡ (ok tt, calm (if is_open queue.status then extended plan q queue w else w))
      extends = elim (Bool-cases (is_open queue.status)) [
        | inl x ↦ rw (found, or_missing, x) (extend_open-calm plan q queue w)
        | inr x ↦ rw (found, or_missing, x) refl
      ]
