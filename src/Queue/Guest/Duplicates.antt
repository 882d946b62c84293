-- ===== src/Queue/Guest/Duplicates.antt =====
-- `JoinQueue` of internal/modules/customer/service/service.go: a guest does not join twice.
use queuebuzz.Prelude.{
  ℕ, ◌≡◌, refl, ◌∙◌, Bool, true, false, ◌&&◌, none, some, List, [], ◌∷◌, any, is_empty, ◌==◌, arith,
}
use queuebuzz.Net.{err, rejected, calm}
use queuebuzz.Lock.{acquire, release, release-acquired}
use queuebuzz.Queue.Domain.{Entry, Queue, is_joined}
use queuebuzz.Queue.World.{Backend, World}
use queuebuzz.Queue.Lookup.{of_queue}
use queuebuzz.Queue.Join.{Fresh}
use queuebuzz.Queue.Guest.{
  given_text, has_text, contact_of, refusal, acquire_lock, release_lock, count_joined, enter_queue,
  join_queue,
}

any-is_empty : {A : Type 0} (p : A → Bool) (xs : List A) → any p xs ≡ true → is_empty xs ≡ false
any-is_empty p [] h = ground arith
any-is_empty p (x ∷ xs) h = refl

email_contact :
    (entry : Entry) (t : List ℕ) → given_text entry.email ≡ some t → contact_of entry ≡ some t
unfolding contact_of
email_contact entry t h = rw (h, contact_of) refl

module _ (B : Backend) (queue : Queue) (entry : Entry) (t : List ℕ) where
  -- While another request holds the lock of the same contact, joining an open queue is refused and
  -- changes nothing, when the call for the lock is answered.
  join_queue-locked :
      (v o : ℕ) (attempts : List Fresh) (w : World B)
      → refusal queue w.now ≡ none
      → contact_of entry ≡ some t
      → B.locks.get (queue.id, t) w.locks ≡ some o
      → join_queue B (record { queue = some queue; entry = entry }) v attempts (calm w)
        ≡ (err (rejected 409), calm w)
  unfolding join_queue acquire_lock acquire calm
  join_queue-locked v o attempts w r c l = rw (r, c, l) refl

  -- When every call is answered and the lock is free, joining an open queue with the email of an
  -- entry of that queue that waits, is called or is idle is refused; no entry changes and the lock
  -- is free again.
  pub join_queue-duplicate :
      (v i : ℕ) (d : Entry) (attempts : List Fresh) (w : World B)
      → refusal queue w.now ≡ none
      → given_text entry.email ≡ some t
      → B.locks.get (queue.id, t) w.locks ≡ none
      → B.entries.find_one i w.entries ≡ some d
      → of_queue queue.id is_joined d ≡ true
      → has_text t d.email ≡ true
      → ((join_queue B (record { queue = some queue; entry = entry }) v attempts (calm w)).0
          ≡ err (rejected 429))
        × ((join_queue B
              (record { queue = some queue; entry = entry })
              v
              attempts
              (calm w)).1.state.entries
            ≡ w.entries)
        × (B.locks.get
              (queue.id, t)
              (join_queue B
                (record { queue = some queue; entry = entry })
                v
                attempts
                (calm w)).1.state.locks
            ≡ none)
  unfolding join_queue acquire_lock release_lock acquire release enter_queue count_joined calm
  join_queue-duplicate v i d attempts w r c l h j m =
      rw (r, email_contact entry t c, l, c, found)
        (refl, refl, release-acquired B.locks (queue.id, t) v w.locks)
    where
      found :
          is_empty
            (B.entries.find (λ e. of_queue queue.id is_joined e && has_text t e.email) w.entries)
          ≡ false
      found = any-is_empty (λ e. e.id == i) _ (B.entries.any-find i _ w.entries ∙ rw (h, j, m) refl)
