-- ===== src/Queue/Closing/Expiry.antt =====
-- `expireQueue` of internal/modules/queue/service/expiry.go: what is left of an expired queue.
use queuebuzz.Prelude.{
  ℕ, ◌≡◌, refl, sym, ◌∙◌, Bool, true, false, not, Bool-cases, Option-cases, inl, inr, Option, none,
  some, [], ◌∷◌, ◌++◌, if◌then◌else◌, ◌==◌, ==_self, is_some, only, arith,
}
use mathlib.Core.Option
use queuebuzz.Net.{answered, request_lost, Net, ok, calm}
use queuebuzz.Queue.Domain.{Entry, Queue, expired, changed_to, skipped, is_live}
use queuebuzz.Queue.World.{Backend, World}
use queuebuzz.Queue.Repository.{
  delete_queue_keys, invalidate_history_summary, invalidate_host_history,
}
use queuebuzz.Queue.Lookup.{of_queue, or_missing, find_queue}
use queuebuzz.Queue.Closing.{
  with_end, without_contact, keeps_entries, delete_if_anonymous, delete_entries, anonymise_live,
  forget_summary, forget_history, expire_queue,
}
use queuebuzz.Queue.Closing.Termination.{release_code-only}

-- A queue that expired at a time, and a guest who was live then, field by field.
abbrev pub expired_queue : ℕ → Queue → Queue
expired_queue now q = record q {
  status = expired;
  closed_at = some now;
  updated_at = now;
  activity_logs = q.activity_logs ++ record { value = changed_to expired; timestamp = now } ∷ [];
}

abbrev pub anonymous_entry : ℕ → Entry → Entry
anonymous_entry now e = record e {
  status = skipped;
  finished_at = some now;
  email = none;
  phone = none;
}

module _ (B : Backend) where
  -- Nothing but the summaries changes.
  forget_summary-only :
      (queue : Option Queue) (w : World B)
      → (k : B.summaries.Keys) × (forget_summary B queue (calm w)
          ≡ (ok tt, calm (record w { summaries = k })))
  unfolding invalidate_history_summary calm
  forget_summary-only none w = (w.summaries, refl)
  forget_summary-only (some queue) w = elim (Option-cases queue.host_public_id) [
    | inl x ↦ (w.summaries, rw x refl)
    | inr (h, x) ↦ (B.summaries.del h w.summaries, rw x refl)
  ]

  forget_history-only :
      (host : Option ℕ) (queue : Option Queue) (w : World B)
      → (k : B.summaries.Keys) × (forget_history B host queue (calm w)
          ≡ (ok tt, calm (record w { summaries = k })))
  unfolding invalidate_host_history invalidate_history_summary calm
  forget_history-only none queue w = (w.summaries, refl)
  forget_history-only (some h) queue w =
      elim (Bool-cases (is_some (B.summaries.get h w.summaries))) [
        | inl x ↦
            let (k, e) =
              forget_summary-only queue (record w { summaries = B.summaries.del h w.summaries }) in
            (k, rw x e)
        | inr x ↦ let (k, e) = forget_summary-only queue w in (k, rw x e)
      ]

  forget_history-queues :
      (host : Option ℕ) (queue : Option Queue) (w : World B)
      → (forget_history B host queue (calm w)).1.state.queues ≡ w.queues
  unfolding calm
  forget_history-queues host queue w = rw (forget_history-only host queue w).1 refl

  forget_history-entries :
      (host : Option ℕ) (queue : Option Queue) (w : World B)
      → (forget_history B host queue (calm w)).1.state.entries ≡ w.entries
  unfolding calm
  forget_history-entries host queue w = rw (forget_history-only host queue w).1 refl

  registered_stays :
      (q h : ℕ) (queue : Queue) (n : Net (World B))
      → queue.host_id ≡ some h
      → delete_if_anonymous B q (some queue) n ≡ (ok tt, n)
  registered_stays q h queue n e = rw e refl

  deleted_queue :
      (q : ℕ) (c : B.queues.Col)
      → B.queues.find_one q (B.queues.delete_many (λ d. d.id == q) c) ≡ none
  deleted_queue q c =
      B.queues.find_one-delete_many q (λ d. d.id == q) c
      ∙ elim (Option-cases (B.queues.find_one q c)) [
        | inl x ↦ rw x refl
        | inr (d, x) ↦ rw (x, B.queues.find_one-key q d c x, ==_self q) refl
      ]

  not-only :
      (q : ℕ) (o : Option Entry)
      → is_some (only (λ d. d.queue_id == q) (only (λ d. not (d.queue_id == q)) o)) ≡ false
  not-only q none = refl
  not-only q (some d) = ground arith

  -- An entry of the collection after the expiry of a queue, as the plan of its host says.
  -- `none` is a plan that is not known, `some true` a free one and `some false` another.
  abbrev pub kept_entry : ℕ → ℕ → Option Bool → Option Entry → Option Entry
  kept_entry q now (some false) o =
      Option.map (λ d. if of_queue q is_live d then anonymous_entry now d else d) o
  kept_entry q now _ o = only (λ d. not (d.queue_id == q)) o

  kept-kept_entry :
      (q now : ℕ) (plan : Option Bool) (o : Option Entry)
      → keeps_entries B plan ≡ true
      → kept_entry q now plan o
        ≡ Option.map (λ d. if of_queue q is_live d then anonymous_entry now d else d) o
  kept-kept_entry q now none o h = ground (arith, h)
  kept-kept_entry q now (some true) o h = ground (arith, h)
  kept-kept_entry q now (some false) o h = refl

  deleted-kept_entry :
      (q now : ℕ) (plan : Option Bool) (o : Option Entry)
      → keeps_entries B plan ≡ false
      → kept_entry q now plan o ≡ only (λ d. not (d.queue_id == q)) o
  deleted-kept_entry q now none o h = refl
  deleted-kept_entry q now (some true) o h = refl
  deleted-kept_entry q now (some false) o h = ground (arith, h)

  -- When every call is answered, an expired queue of a registered host stays: it is EXPIRED, with the
  -- time of its end and a line in its log. If the host's plan is known and not free, the live entries
  -- of the queue are SKIPPED, with the time, and lose their email and phone, and no other entry
  -- changes, so that those whose stay is over keep their contact; otherwise the entries of the queue
  -- are deleted, and no others.
  pub expire_queue-kept :
      (q h : ℕ) (code host : Option ℕ) (plan : Option Bool) (queue : Queue) (w : World B)
      → B.queues.find_one q w.queues ≡ some queue
      → queue.host_id ≡ some h
      → (B.queues.find_one q (expire_queue B q code host plan (calm w)).1.state.queues
          ≡ some (expired_queue w.now queue))
        × ((i : ℕ)
            → B.entries.find_one i (expire_queue B q code host plan (calm w)).1.state.entries
              ≡ kept_entry q w.now plan (B.entries.find_one i w.entries))
  unfolding expire_queue find_queue delete_queue_keys anonymise_live delete_entries calm
  expire_queue-kept q h code host plan queue w found registered =
      let (k, run, _) = release_code-only B code (record w {
        queues = B.queues.update_one q (with_end expired (changed_to expired) w.now) w.queues;
      }) in
      let closed_queue =
        B.queues.find_one-update_one q q (with_end expired (changed_to expired) w.now) w.queues
          (λ d. refl)
        ∙ rw (==_self q, found) refl in
      rw (found, or_missing, run)
        (elim (Bool-cases (keeps_entries B plan)) [
          | inl x ↦
              rw
                (
                  x,
                  registered_stays q h queue _ registered,
                  forget_history-queues host _ _,
                  forget_history-entries host _ _,
                )
                (
                  closed_queue,
                  λ i.
                      B.entries.find_one-update_many i (of_queue q is_live)
                        (without_contact B w.now) w.entries (λ d. refl)
                      ∙ sym (kept-kept_entry q w.now plan (B.entries.find_one i w.entries) x),
                )
          | inr x ↦
              rw
                (
                  x,
                  registered_stays q h queue _ registered,
                  forget_history-queues host _ _,
                  forget_history-entries host _ _,
                )
                (
                  closed_queue,
                  λ i.
                      B.entries.find_one-delete_many i (λ d. d.queue_id == q) w.entries
                      ∙ sym (deleted-kept_entry q w.now plan (B.entries.find_one i w.entries) x),
                )
        ])

  -- If the read of the queue is lost, everything else is answered and the plan is not known, the
  -- queue and all its entries are deleted, also if the queue has a registered host.
  pub expire_queue-lost_read :
      (q : ℕ) (code host : Option ℕ) (w : World B)
      → (B.queues.find_one q
            (expire_queue B q code host none
              (record (calm w) { fates = answered ∷ request_lost ∷ [] })).1.state.queues
          ≡ none)
        × ((i : ℕ)
            → is_some (
                only
                  (λ d. d.queue_id == q)
                  (B.entries.find_one i
                    (expire_queue B q code host none
                      (record (calm w) { fates = answered ∷ request_lost ∷ [] })).1.state.entries))
              ≡ false)
  unfolding expire_queue find_queue delete_queue_keys anonymise_live delete_entries calm
  expire_queue-lost_read q code host w =
      let (k, run, _) = release_code-only B code (record w {
        queues = B.queues.update_one q (with_end expired (changed_to expired) w.now) w.queues;
      }) in
      rw (run, forget_history-queues host _ _, forget_history-entries host _ _)
        (
          deleted_queue q _,
          λ i.
              rw (B.entries.find_one-delete_many i (λ d. d.queue_id == q) _)
                (not-only q (B.entries.find_one i _)),
        )
