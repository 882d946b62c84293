-- ===== src/Queue/Opening/Deletion.antt =====
-- `DeleteQueue` of internal/modules/queue/service/service.go: what is left after a deletion.
use mathlib.Core.Option
use queuebuzz.Prelude.{
  ℕ, ◌≡◌, refl, ◌∙◌, sym, ap, subst, arith, not, Option, none, some, Option-cases, List, [], ◌∷◌,
  if◌then◌else◌, ◌==◌, Bool-cases, inl, inr, only,
}
use queuebuzz.Net.{
  Net, Fate, answered, request_lost, reply_lost, ok, err, Error, network, no_documents, attempt,
  calm, request, ◌>>=◌,
}
use queuebuzz.Queue.Domain.{Queue, Host, is_open}
use queuebuzz.Queue.World.{Backend, World}
use queuebuzz.Queue.Lookup.{or_missing}
use queuebuzz.Queue.Closing.{delete_entries}
use queuebuzz.Queue.Closing.Termination.{queue_of_code, forget_host-only, release_code-only}
use queuebuzz.Billing.{
  taken, take_off, take_off_host, is_nothing, get_host, decrement_monthly_queue_count,
}
use queuebuzz.Billing.Deletions.{take_off_nothing}
use queuebuzz.Queue.Opening.{
  is_owned, find_owned, delete_queue_document, release_if_open, settle_deletion, delete_queue,
}
use queuebuzz.Queue.Opening.Amounts.{one_less, taken-one_less}

module _ (B : Backend) where
  -- What a deletion leaves of the document of a host.
  abbrev pub discounted : ℕ → ℕ → ℕ → Option Host → Option Host
  discounted h created i o = if h == i then Option.map (one_less created) o else o

  abbrev counted_off : ℕ → ℕ → ℕ → Option Host → Option Host
  counted_off h created i o = if h == i then Option.map (λ d. take_off (taken created d) d) o else o

  counted_off-discounted :
      (h created i : ℕ) (o : Option Host) → counted_off h created i o ≡ discounted h created i o
  counted_off-discounted h created i none = refl
  counted_off-discounted h created i (some d) = rw (taken-one_less created d) refl

  -- A queue that was deleted, and what is kept.
  pub record Deleted (h q : ℕ) (queue : Queue) (w w' : World B) : Type 0 where
    pub queues :
        (i : ℕ)
        → B.queues.find_one i w'.queues ≡ only (λ d. not (d.id == q)) (B.queues.find_one i w.queues)
    pub guests :
        (i : ℕ)
        → B.entries.find_one i w'.entries
          ≡ only (λ e. not (e.queue_id == q)) (B.entries.find_one i w.entries)
    pub code :
        queue_of_code B queue.join_code w'.join_codes
        ≡ (if is_open queue.status then none else queue_of_code B queue.join_code w.join_codes)
    pub keys : (w'.positions ≡ w.positions) × (w'.counters ≡ w.counters)
    pub hosts :
        (i : ℕ)
        → B.hosts.find_one i w'.hosts ≡ discounted h queue.created_at i (B.hosts.find_one i w.hosts)

  -- Nothing but the join codes changes, and the code of an open queue is free.
  release_if_open-only :
      (queue : Queue) (w : World B)
      → (k : B.join_codes.Keys) × (release_if_open B queue (calm w)
          ≡ (ok tt, calm (record w { join_codes = k })))
        × (queue_of_code B queue.join_code k
            ≡ (if is_open queue.status then none else queue_of_code B queue.join_code w.join_codes))
  unfolding calm
  release_if_open-only queue w = elim (Bool-cases (is_open queue.status)) [
    | inl x ↦ rw x (release_code-only B queue.join_code w)
    | inr x ↦ rw x (w.join_codes, refl, refl)
  ]

  same-counted_off :
      (h created i : ℕ) (w : World B)
      → Option.map (λ d. take_off (taken created d) d) (B.hosts.find_one h w.hosts)
        ≡ B.hosts.find_one h w.hosts
      → B.hosts.find_one i w.hosts ≡ counted_off h created i (B.hosts.find_one i w.hosts)
  same-counted_off h created i w same = elim (Bool-cases (h == i)) [
    | inl x ↦
        let e : h ≡ i = ground arith in
        rw x (
          subst
            (λ j.
              B.hosts.find_one j w.hosts
              ≡ Option.map (λ d. take_off (taken created d) d) (B.hosts.find_one j w.hosts))
            e (sym same))
    | inr x ↦ rw x refl
  ]

  updated-counted_off :
      (h created i : ℕ) (host : Host) (w : World B)
      → B.hosts.find_one h w.hosts ≡ some host
      → B.hosts.find_one i (B.hosts.update_one h (take_off (taken created host)) w.hosts)
        ≡ counted_off h created i (B.hosts.find_one i w.hosts)
  unfolding take_off
  updated-counted_off h created i host w found =
      B.hosts.find_one-update_one h i (take_off (taken created host)) w.hosts (λ d. refl)
      ∙ elim (Bool-cases (h == i)) [
        | inl x ↦
            let e : h ≡ i = ground arith in
            rw x (
              subst
                (λ j.
                  Option.map (take_off (taken created host)) (B.hosts.find_one j w.hosts)
                  ≡ Option.map (λ d. take_off (taken created d) d) (B.hosts.find_one j w.hosts))
                e (rw found refl))
        | inr x ↦ rw x refl
      ]

  -- Nothing but the hosts changes, whether the host is found or not.
  decrement-only :
      (h created : ℕ) (w : World B)
      → (k : B.hosts.Col) × (r : Option (Unit {0})) × (attempt
            (decrement_monthly_queue_count B (some h) created)
            (calm w)
          ≡ (ok r, calm (record w { hosts = k })))
        × ((i : ℕ) → B.hosts.find_one i k ≡ counted_off h created i (B.hosts.find_one i w.hosts))
  unfolding decrement_monthly_queue_count get_host calm
  decrement-only h created w = elim (Option-cases (B.hosts.find_one h w.hosts)) [
    | inl x ↦
        (w.hosts, none, rw (x, or_missing) refl, λ i. same-counted_off h created i w (rw x refl))
    | inr (host, x) ↦
        let (k, r, run, counted) = taken_off host x in (k, r, rw (x, or_missing) run, counted)
  ]
    where
      taken_off :
          (host : Host)
          → B.hosts.find_one h w.hosts ≡ some host
          → (k : B.hosts.Col) × (r : Option (Unit {0})) × (attempt
                (take_off_host B h (taken created host))
                (calm w)
              ≡ (ok r, calm (record w { hosts = k })))
            × ((i : ℕ)
                → B.hosts.find_one i k ≡ counted_off h created i (B.hosts.find_one i w.hosts))
      taken_off host x = elim (Bool-cases (is_nothing (taken created host))) [
        | inl y ↦ (
          w.hosts,
          some tt,
          rw y refl,
          λ i.
              same-counted_off h created i w
                (rw x (ap some (take_off_nothing (taken created host) host y))),
        )
        | inr y ↦ (
          B.hosts.update_one h (take_off (taken created host)) w.hosts,
          some tt,
          rw y refl,
          λ i. updated-counted_off h created i host w x,
        )
      ]

  abbrev without_documents : ℕ → World B → World B
  without_documents q w = record w {
    entries = B.entries.delete_many (λ e. e.queue_id == q) w.entries;
    queues = B.queues.delete_many (λ d. d.id == q) w.queues;
  }

  settle_deletion-Deleted :
      (h q : ℕ) (queue : Queue) (w : World B)
      → ((settle_deletion B h queue (calm (without_documents q w))).0 ≡ ok tt)
        × Deleted h q queue w (settle_deletion B h queue (calm (without_documents q w))).1.state
  unfolding calm
  settle_deletion-Deleted h q queue w =
      let (k, released, free) = release_if_open-only queue (without_documents q w) in
      let (hosts, r, decremented, counted) =
        decrement-only h queue.created_at (record (without_documents q w) { join_codes = k }) in
      let (f, s, forgotten) =
        forget_host-only B queue
          (record (without_documents q w) { join_codes = k; hosts = hosts }) in
      rw released (
        rw decremented (
          rw forgotten (
            refl,
            record {
              queues = λ i. B.queues.find_one-delete_many i (λ d. d.id == q) w.queues;
              guests = λ i. B.entries.find_one-delete_many i (λ e. e.queue_id == q) w.entries;
              code = free;
              keys = (refl, refl);
              hosts = λ i. counted i ∙ counted_off-discounted h queue.created_at i _;
            },
          )))

  -- When every call is answered and the queue belongs to the host, deleting it removes it and its
  -- entries and no other ones; its join code is free if it was open and is left alone otherwise, its
  -- set and its ticket counter stay in Redis, the host's counter of all queues goes down by one, its
  -- counter of the month goes down by one if the queue was not created before the last reset of this
  -- counter, none of them below zero, and no other host changes.
  pub delete_queue-Deleted :
      (h q : ℕ) (queue : Queue) (w : World B)
      → only (is_owned h) (B.queues.find_one q w.queues) ≡ some queue
      → ((delete_queue B h q (calm w)).0 ≡ ok tt)
        × Deleted h q queue w (delete_queue B h q (calm w)).1.state
  unfolding delete_queue find_owned delete_entries delete_queue_document calm
  delete_queue-Deleted h q queue w owned =
      rw (owned, or_missing) (settle_deletion-Deleted h q queue w)

  -- Whatever the fates of the calls, a host that deletes a queue that is not its own, or that is not
  -- there, gets an error and changes nothing.
  delete_queue-foreign :
      (h q : ℕ) (n : Net (World B))
      → only (is_owned h) (B.queues.find_one q n.state.queues) ≡ none
      → (e : Error) × ((delete_queue B h q n).0 ≡ err e)
        × ((delete_queue B h q n).1.state ≡ n.state)
  unfolding delete_queue find_owned ◌>>=◌ request
  delete_queue-foreign h q n foreign = refused n.fates
    where
      refused :
          (fates : List Fate)
          → (e : Error) × ((delete_queue B h q (record n { fates = fates })).0 ≡ err e)
            × ((delete_queue B h q (record n { fates = fates })).1.state ≡ n.state)
      refused [] = (no_documents, rw (foreign, or_missing) refl, rw (foreign, or_missing) refl)
      refused (answered ∷ fates) =
          (no_documents, rw (foreign, or_missing) refl, rw (foreign, or_missing) refl)
      refused (request_lost ∷ fates) = (network, refl, refl)
      refused (reply_lost ∷ fates) = (network, refl, refl)
