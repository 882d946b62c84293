-- ===== src/Queue/Lifecycle.antt =====
-- `finishUserSession` of internal/modules/queue/service/service.go and the timer handlers of
-- internal/modules/queue/service/expiry.go: how an entry's stay ends, and that it may not.
pub mod Fields
use mathlib.Core.Option
use queuebuzz.Prelude.{
  sym, true, false, arith, ◌+◌, if◌then◌else◌, ◌==◌, ℕ, ◌≡◌, refl, ◌∙◌, ap, fun_ext, Bool-cases,
  inl, inr, Option, none, some, Option-cases, ==_self, index_of, index_of-keep,
}
use queuebuzz.Net.{ok, calm}
use queuebuzz.Queue.Domain.{
  Entry, Queue, Host, EntryStatus, waiting, called, idle, arrived, served, left, skipped, is_served,
}
use queuebuzz.Queue.World.{Backend, World}
use queuebuzz.Queue.Repository.{positions_of, remove_from_queue}
use queuebuzz.Queue.Lookup.{or_missing, get_entry, find_queue, forget_dashboard}
use queuebuzz.Queue.Calling.{served_once_more, finished, count_served, finish_user_session}
use queuebuzz.Queue.Lifecycle.Fields.{
  ended_entry, served_host, counted_served, no_host-counted_served, not_served-counted_served,
  is_served-counted_served,
}

module _ (B : Backend) where
  finished-ended_entry :
      (s : EntryStatus) (now : ℕ) (d : Entry) → finished B s now d ≡ ended_entry s now d
  finished-ended_entry waiting now d = refl
  finished-ended_entry called now d = refl
  finished-ended_entry idle now d = refl
  finished-ended_entry arrived now d = refl
  finished-ended_entry served now d = refl
  finished-ended_entry left now d = refl
  finished-ended_entry skipped now d = refl

  -- What an ended stay leaves behind.
  pub record Ended (s : EntryStatus) (e : ℕ) (d : Entry) (w w' : World B) : Type 0 where
    pub recorded : B.entries.find_one e w'.entries ≡ some (ended_entry s w.now d)
    pub left_set : index_of e (B.sorted.range (positions_of B d.queue_id w')) ≡ none
    pub entries :
        (i : ℕ)
        → B.entries.find_one i w'.entries ≡ (
            if e == i
            then Option.map (ended_entry s w.now) (B.entries.find_one i w.entries)
            else B.entries.find_one i w.entries)
    pub timers : (w'.idle_timers ≡ w.idle_timers) × (w'.grace_timers ≡ w.grace_timers)

  abbrev after_removal : EntryStatus → ℕ → Entry → World B → World B
  after_removal s e d w = record w {
    entries = B.entries.update_one e (finished B s w.now) w.entries;
    positions =
        B.positions.put d.queue_id (B.sorted.rem e (positions_of B d.queue_id w)) w.positions;
  }

  find_updated :
      (s : EntryStatus) (e : ℕ) (d : Entry) (w : World B)
      → B.entries.find_one e w.entries ≡ some d
      → B.entries.find_one e (B.entries.update_one e (finished B s w.now) w.entries)
        ≡ some (ended_entry s w.now d)
  find_updated s e d w h =
      B.entries.find_one-update_one e e (finished B s w.now) w.entries (λ d. refl)
      ∙ rw (==_self e, h) (ap some (finished-ended_entry s w.now d))

  removal-Ended :
      (s : EntryStatus) (e : ℕ) (d : Entry) (w : World B)
      → B.entries.find_one e w.entries ≡ some d
      → Ended s e d w (after_removal s e d w)
  removal-Ended s e d w h = record {
    recorded = find_updated s e d w h;
    left_set =
        rw
          (
            B.positions.get-put d.queue_id _ w.positions,
            B.sorted.range-rem e (positions_of B d.queue_id w),
          )
          (index_of-keep e _);
    entries = λ i.
        B.entries.find_one-update_one e i (finished B s w.now) w.entries (λ d. refl)
        ∙ rw (fun_ext (finished-ended_entry s w.now)) refl;
    timers = (refl, refl);
  }

  forget-Ended :
      (s : EntryStatus) (e : ℕ) (d : Entry) (w w' : World B) (q : Option Queue)
      → Ended s e d w w'
      → Ended s e d w (forget_dashboard B q w')
  forget-Ended s e d w w' none h = h
  forget-Ended s e d w w' (some q) h = elim (Option-cases q.host_public_id) [
    | inl x ↦ rw (x, forget_dashboard) h
    | inr (i, x) ↦
        rw (x, forget_dashboard)
          (record {
            recorded = h.recorded;
            left_set = h.left_set;
            entries = h.entries;
            timers = h.timers;
          })
  ]

  forget-hosts : (q : Option Queue) (w : World B) → (forget_dashboard B q w).hosts ≡ w.hosts
  forget-hosts none w = refl
  forget-hosts (some q) w = elim (Option-cases q.host_public_id) [
    | inl x ↦ rw (x, forget_dashboard) refl
    | inr (i, x) ↦ rw (x, forget_dashboard) refl
  ]

  -- The hosts after the end of a stay in a queue.
  abbrev pub Counted : EntryStatus → Option Queue → World B → World B → Type 0
  Counted s q w w' =
      (i : ℕ)
      → B.hosts.find_one i w'.hosts
        ≡ counted_served s (served_host q) i (B.hosts.find_one i w.hosts)

  count_served-Ended :
      (s : EntryStatus) (e : ℕ) (d : Entry) (w w' : World B) (q : Option Queue)
      → Ended s e d w w'
      → w'.hosts ≡ w.hosts
      → ((count_served B s q (calm w')).0 ≡ ok tt)
        × Ended s e d w (count_served B s q (calm w')).1.state
        × Counted s q w (count_served B s q (calm w')).1.state
  unfolding calm
  count_served-Ended s e d w w' none h same = (
    refl,
    h,
    λ i.
        ap (B.hosts.find_one i) same
        ∙ sym (no_host-counted_served s i (B.hosts.find_one i w.hosts)),
  )
  count_served-Ended s e d w w' (some q) h same = elim (Option-cases q.host_id) [
    | inl x ↦
        rw (x, count_served)
          (
            refl,
            h,
            λ i.
                ap (B.hosts.find_one i) same
                ∙ sym (no_host-counted_served s i (B.hosts.find_one i w.hosts)),
          )
    | inr (k, x) ↦
        rw (x, count_served)
          (elim (Bool-cases (is_served s)) [
            | inl y ↦ rw y (
              refl,
              record {
                recorded = h.recorded;
                left_set = h.left_set;
                entries = h.entries;
                timers = h.timers;
              },
              λ i.
                  B.hosts.find_one-update_one k i (served_once_more B) w'.hosts (λ c. refl)
                  ∙ rw same (sym (is_served-counted_served s k i (B.hosts.find_one i w.hosts) y)),
            )
            | inr y ↦ rw y (
              refl,
              h,
              λ i.
                  ap (B.hosts.find_one i) same
                  ∙ sym (not_served-counted_served s (some k) i (B.hosts.find_one i w.hosts) y),
            )
          ])
  ]

  -- When every call is answered, ending the stay of an entry that is there succeeds: the entry has
  -- the new status and the time of its end (and, if it was served, of its service), its other fields
  -- are kept, it is gone from its queue's set in Redis, and no other entry changes. The timers, idle
  -- and grace, stay as they are. If it was served, in a queue that is there and has a host, this host
  -- has served one guest more, and no other host changes.
  pub finish_user_session-Ended :
      (e : ℕ) (s : EntryStatus) (d : Entry) (w : World B)
      → B.entries.find_one e w.entries ≡ some d
      → ((finish_user_session B e s (calm w)).0 ≡ ok tt)
        × Ended s e d w (finish_user_session B e s (calm w)).1.state
        × Counted s
            (B.queues.find_one d.queue_id w.queues)
            w
            (finish_user_session B e s (calm w)).1.state
  unfolding finish_user_session get_entry remove_from_queue find_queue calm
  finish_user_session-Ended e s d w h =
      rw (h, or_missing)
        (elim (Option-cases (B.queues.find_one d.queue_id w.queues)) [
          | inl x ↦
              rw (x, or_missing)
                (count_served-Ended s e d w _ none
                  (forget-Ended s e d w _ none (removal-Ended s e d w h)) refl)
          | inr (q, x) ↦
              rw (x, or_missing)
                (count_served-Ended s e d w _ (some q)
                  (forget-Ended s e d w _ (some q) (removal-Ended s e d w h))
                  (forget-hosts (some q) (after_removal s e d w)))
        ])
