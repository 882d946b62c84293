-- ===== src/Queue/Closing/Termination.antt =====
-- `TerminateQueue` of internal/modules/queue/service/service.go: what is left of a closed queue.
use queuebuzz.Prelude.{
  ℕ, ◌≡◌, refl, sym, ◌∙◌, ap, Bool, true, false, Bool-cases, inl, inr, Option, none, some,
  Option-cases, List, [], ◌∷◌, ◌++◌, if◌then◌else◌, ◌==◌, ==_self, is_some, only, arith,
}
use mathlib.Core.Option.{some-injective}
use mathlib.Core.Option
use queuebuzz.Net.{Net, ok, pure, continue, ◌>>=◌, ◌>>◌, calm}
use queuebuzz.Queue.Domain.{Entry, Queue, closed, completed, skipped, is_live}
use queuebuzz.Queue.World.{Backend, World, Call}
use queuebuzz.Queue.Repository.{delete_queue_keys, release_join_code, invalidate_history_summary}
use queuebuzz.Queue.Lookup.{of_queue, or_missing, is_current, get_queue, forget_dashboard}
use queuebuzz.Queue.Closing.{
  with_end, skip_at, skip_live, forget_host, skip_unserved, release_code, clean_up, close_down,
  terminate_queue,
}

-- A queue that was closed at a time, and a guest who was skipped then, field by field.
abbrev pub closed_queue : ℕ → Queue → Queue
closed_queue now q = record q {
  status = closed;
  closed_at = some now;
  updated_at = now;
  activity_logs = q.activity_logs ++ record { value = completed; timestamp = now } ∷ [];
}

abbrev pub skipped_entry : ℕ → Entry → Entry
skipped_entry now e = record e { status = skipped; finished_at = some now; updated_at = now }

module _ (B : Backend) where
  abbrev pub skip_if_live : ℕ → ℕ → Option Entry → Option Entry
  skip_if_live q now o = Option.map (λ d. if of_queue q is_live d then skipped_entry now d else d) o

  -- The queue that a code leads to, if there is a code.
  abbrev pub queue_of_code : Option ℕ → B.join_codes.Keys → Option ℕ
  queue_of_code none k = none
  queue_of_code (some code) k = B.join_codes.get code k

  -- A queue after its end, and its entries.
  pub record Terminated (q : ℕ) (queue : Queue) (w w' : World B) : Type 0 where
    pub ended : B.queues.find_one q w'.queues ≡ some (closed_queue w.now queue)
    pub guests :
        (i : ℕ)
        → B.entries.find_one i w'.entries ≡ skip_if_live q w.now (B.entries.find_one i w.entries)
    pub no_positions : B.positions.get q w'.positions ≡ none
    pub no_counter : B.counters.get q w'.counters ≡ none
    pub code_free : queue_of_code queue.join_code w'.join_codes ≡ none

  -- An entry that no search for live ones finds is not changed by skipping.
  not_found-skip_if_live :
      (q i now : ℕ) (o : Option Entry)
      → is_some (only (of_queue q is_live) o) ≡ false
      → skip_if_live q now o ≡ o
  not_found-skip_if_live q i now none h = refl
  not_found-skip_if_live q i now (some d) h = elim (Bool-cases (of_queue q is_live d)) [
    | inl x ↦ ground (arith, rw x at h)
    | inr x ↦ rw x refl
  ]

  no_live-skip_if_live :
      (q i : ℕ) (w : World B)
      → B.entries.find (of_queue q is_live) w.entries ≡ []
      → B.entries.find_one i w.entries ≡ skip_if_live q w.now (B.entries.find_one i w.entries)
  no_live-skip_if_live q i w h = sym (
      not_found-skip_if_live q i w.now _
        (sym (B.entries.any-find i (of_queue q is_live) w.entries) ∙ rw h refl))

  skip_live-guests :
      (q i : ℕ) (w : World B)
      → B.entries.find_one i (B.entries.update_many (of_queue q is_live) (skip_at w.now) w.entries)
        ≡ skip_if_live q w.now (B.entries.find_one i w.entries)
  skip_live-guests q i w =
      B.entries.find_one-update_many i (of_queue q is_live) (skip_at w.now) w.entries (λ d. refl)

  abbrev without_keys : ℕ → World B → World B
  without_keys q w = record w {
    positions = B.positions.del q w.positions;
    counters = B.counters.del q w.counters;
  }

  -- Nothing but the join codes changes, and the code is free.
  pub release_code-only :
      (code : Option ℕ) (w : World B)
      → (k : B.join_codes.Keys) × (release_code B code (calm w)
          ≡ (ok tt, calm (record w { join_codes = k })))
        × (queue_of_code code k ≡ none)
  unfolding release_join_code calm
  release_code-only none w = (w.join_codes, refl, refl)
  release_code-only (some code) w =
      (B.join_codes.del code w.join_codes, refl, B.join_codes.get-del code w.join_codes)

  -- The last steps, from a world in which the queue has ended and its guests are skipped.
  clean_up-Terminated :
      (q : ℕ) (queue : Queue) (v w : World B)
      → B.queues.find_one q v.queues ≡ some (closed_queue w.now queue)
      → ((i : ℕ)
          → B.entries.find_one i v.entries ≡ skip_if_live q w.now (B.entries.find_one i w.entries))
      → ((clean_up B q (some queue) (calm v)).0 ≡ ok tt)
        × Terminated q queue w (clean_up B q (some queue) (calm v)).1.state
  unfolding delete_queue_keys calm
  clean_up-Terminated q queue v w ended guests =
      let (k, run, free) = release_code-only queue.join_code (without_keys q v) in
      rw run (
        refl,
        record {
          ended = ended;
          guests = guests;
          no_positions = B.positions.get-del q v.positions;
          no_counter = B.counters.get-del q v.counters;
          code_free = free;
        },
      )

  skip_unserved-Terminated :
      (q : ℕ) (queue : Queue) (v w : World B) (found : List Entry)
      → B.entries.find (of_queue q is_live) w.entries ≡ found
      → v.entries ≡ w.entries
      → v.now ≡ w.now
      → B.queues.find_one q v.queues ≡ some (closed_queue w.now queue)
      → (((skip_unserved B q found >> clean_up B q (some queue)) (calm v)).0 ≡ ok tt)
        × Terminated q queue w
            ((skip_unserved B q found >> clean_up B q (some queue)) (calm v)).1.state
  unfolding skip_live calm
  skip_unserved-Terminated q queue v w [] h same now ended =
      clean_up-Terminated q queue v w ended (λ i. rw same (no_live-skip_if_live q i w h))
  skip_unserved-Terminated q queue v w (e ∷ es) h same now ended =
      clean_up-Terminated q queue _ w ended (λ i. rw (same, now) (skip_live-guests q i w))

  abbrev ended_queue : ℕ → World B → World B
  ended_queue q w = record w {
    queues = B.queues.update_one q (with_end closed completed w.now) w.queues;
  }

  -- Nothing but the dashboards and the summaries changes.
  pub forget_host-only :
      (queue : Queue) (w : World B)
      → (f : ℕ → Bool) × (k : B.summaries.Keys) × (forget_host B (some queue) (calm w)
          ≡ (ok tt, calm (record w { dashboards = f; summaries = k })))
  unfolding invalidate_history_summary calm
  forget_host-only queue w = elim (Option-cases queue.host_public_id) [
    | inl x ↦ (w.dashboards, w.summaries, rw x refl)
    | inr (h, x) ↦ (
      λ i. if h == i then false else w.dashboards i,
      B.summaries.del h w.summaries,
      rw x (rw (forget_dashboard, x) refl),
    )
  ]

  close_down-Terminated :
      (q : ℕ) (queue : Queue) (w : World B)
      → B.queues.find_one q (ended_queue q w).queues ≡ some (closed_queue w.now queue)
      → ((close_down B q
            (some queue)
            (B.entries.find (of_queue q is_live) w.entries)
            (calm (ended_queue q w))).0
          ≡ ok tt)
        × Terminated q queue w
            (close_down B q
              (some queue)
              (B.entries.find (of_queue q is_live) w.entries)
              (calm (ended_queue q w))).1.state
  unfolding invalidate_history_summary calm
  close_down-Terminated q queue w ended =
      let (f, k, only) = forget_host-only queue (ended_queue q w) in
      rw only (
        skip_unserved-Terminated q queue
          (record (ended_queue q w) { dashboards = f; summaries = k }) w _ refl refl refl ended)

  then_pure :
      {A : Type 0} (a : A) (m : Call B (Unit {0})) (n : Net (World B))
      → (m n).0 ≡ ok tt
      → ((m >> pure a) n) ≡ (ok a, (m n).1)
  unfolding ◌>>◌ ◌>>=◌
  then_pure a m n h = ap (λ r. continue (λ x. pure a) (r, (m n).1)) h

  -- When every call is answered, terminating a queue that is open and has not expired returns its
  -- live entries and closes it: it is CLOSED, with the time of the end and a line in its log, every
  -- live entry of the queue is SKIPPED, with the time, and no other entry changes, its set and
  -- counter are gone and its join code is free.
  pub terminate_queue-Terminated :
      (q : ℕ) (queue : Queue) (w : World B)
      → B.queues.find_one q w.queues ≡ some queue
      → is_current w.now queue ≡ true
      → ((terminate_queue B q (calm w)).0 ≡ ok (B.entries.find (of_queue q is_live) w.entries))
        × Terminated q queue w (terminate_queue B q (calm w)).1.state
  unfolding terminate_queue get_queue calm
  terminate_queue-Terminated q queue w h c =
      let done = close_down-Terminated q queue w (
        B.queues.find_one-update_one q q (with_end closed completed w.now) w.queues (λ d. refl)
        ∙ rw (==_self q, h) refl) in
      rw
        (
          h,
          c,
          or_missing,
          then_pure (B.entries.find (of_queue q is_live) w.entries)
              (close_down B q (some queue) (B.entries.find (of_queue q is_live) w.entries))
              (calm (ended_queue q w)) done.0,
        )
        (refl, done.1)
