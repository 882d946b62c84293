-- ===== src/Queue/Opening/Creation.antt =====
-- `CreateQueue` of internal/modules/queue/service/service.go: what is there after a creation.
use mathlib.Core.Option
use queuebuzz.Prelude.{
  ℕ, ◌+◌, ◌*◌, ◌<◌, ◌≡◌, refl, true, false, Option, none, some, List, [], ◌∷◌, if◌then◌else◌, ◌==◌,
  lt→ltb, Bool-cases, inl, inr, arith,
}
use queuebuzz.Net.{ok, err, network, answered, request_lost, attempt, calm}
use queuebuzz.Queue.Domain.{Queue, Host, active}
use queuebuzz.Queue.World.{Backend, World}
use queuebuzz.Queue.Slug.{normal_slug, is_valid_slug, is_reserved_slug}
use queuebuzz.Queue.Repository.{claim_join_code, generate_join_code, set_rehydrated_sentinel}
use queuebuzz.Queue.Repository.JoinCodes.{first_free, generate_join_code-claimed}
use queuebuzz.Queue.Lookup.{is_current}
use queuebuzz.Queue.Closing.Termination.{forget_host-only}
use queuebuzz.Subscription.Domain.{Plan}
use queuebuzz.Billing.{counted_up, increment_monthly_queue_count}
use queuebuzz.Queue.Opening.{
  Params, expiry_hours, hour, new_queue, insert_queue, open_queue, create_queue,
}

expiry_hours-positive : (plan : Option Plan) → 0 < expiry_hours plan
unfolding expiry_hours
expiry_hours-positive none = omega arith
expiry_hours-positive (some plan) = elim (Bool-cases (plan.tier == 0)) [
  | inl x ↦ rw x (ground arith)
  | inr x ↦ rw x (ground arith)
]

new_queue-is_current :
    (p : Params) (plan : Option Plan) (id now code : ℕ)
    → is_current now (new_queue p plan id now code) ≡ true
new_queue-is_current p plan id now code =
    let positive = expiry_hours-positive plan in
    lt→ltb now (now + expiry_hours plan * hour) (omega arith)

-- A host with one queue more, in this month and in all.
abbrev pub one_more : Host → Host
one_more d = record d {
  monthly_queue_count = d.monthly_queue_count + 1;
  total_queue_count = d.total_queue_count + 1;
}

-- What the host has asked for, as a queue that has just been opened has it.
pub record Asked (p : Params) (q code now : ℕ) (queue : Queue) : Type 0 where
  pub id : queue.id ≡ q
  pub name : queue.name ≡ p.name
  pub host : (queue.host_id ≡ p.host_id) × (queue.host_public_id ≡ p.host_public_id)
  pub status : queue.status ≡ active
  pub join_code : queue.join_code ≡ some code
  pub positioning : queue.manual_positioning ≡ p.manual_positioning
  pub times : (queue.created_at ≡ now) × (queue.closed_at ≡ none)

-- The document of a host after a creation of the host, if there is one.
abbrev pub counted_for : Option ℕ → ℕ → Option Host → Option Host
counted_for none i o = o
counted_for (some h) i o = if h == i then Option.map one_more o else o

new_queue-Asked :
    (p : Params) (plan : Option Plan) (id now code : ℕ)
    → Asked p id code now (new_queue p plan id now code)
new_queue-Asked p plan id now code = record {
  id = refl;
  name = refl;
  host = (refl, refl);
  status = refl;
  join_code = refl;
  positioning = refl;
  times = (refl, refl);
}

module _ (B : Backend) where
  -- A new queue, and what is kept.
  pub record Opened (p : Params) (queue : Queue) (id code : ℕ) (w w' : World B) : Type 0 where
    pub asked : Asked p id code w.now queue
    pub queues :
        (i : ℕ)
        → B.queues.find_one i w'.queues
          ≡ (if id == i then some queue else B.queues.find_one i w.queues)
    pub current : is_current w'.now queue ≡ true
    pub resolved : B.join_codes.get code w'.join_codes ≡ some id
    pub counted :
        (i : ℕ) → B.hosts.find_one i w'.hosts ≡ counted_for p.host_id i (B.hosts.find_one i w.hosts)
    pub guests : w'.entries ≡ w.entries

  abbrev after_count : Option ℕ → B.hosts.Col → B.hosts.Col
  after_count none c = c
  after_count (some h) c = B.hosts.update_one h counted_up c

  increment-only :
      (host : Option ℕ) (w : World B)
      → attempt (increment_monthly_queue_count B host) (calm w)
        ≡ (ok (some tt), calm (record w { hosts = after_count host w.hosts }))
  unfolding increment_monthly_queue_count calm
  increment-only none w = refl
  increment-only (some h) w = refl

  after_count-counted_for :
      (host : Option ℕ) (i : ℕ) (w : World B)
      → B.hosts.find_one i (after_count host w.hosts)
        ≡ counted_for host i (B.hosts.find_one i w.hosts)
  unfolding counted_up
  after_count-counted_for none i w = refl
  after_count-counted_for (some h) i w =
      B.hosts.find_one-update_one h i counted_up w.hosts (λ d. refl)

  insert_queue-only :
      (q : Queue) (c : B.queues.Col) (w : World B)
      → B.queues.insert_one q w.queues ≡ some c
      → insert_queue B q (calm w) ≡ (ok tt, calm (record w { queues = c }))
  unfolding insert_queue calm
  insert_queue-only q c w h = rw h refl

  abbrev pub with_code : ℕ → ℕ → World B → World B
  with_code id code w = record w { join_codes = B.join_codes.put code id w.join_codes }

  -- The world when the caches of the host are about to be dropped.
  abbrev entered : Option ℕ → ℕ → ℕ → B.queues.Col → World B → World B
  entered host id code c w = record (with_code id code w) {
    queues = c;
    hosts = after_count host w.hosts;
    sentinels = B.sentinels.put id tt w.sentinels;
  }

  open_queue-Opened :
      (p : Params) (plan : Option Plan) (id code : ℕ) (codes : List ℕ) (c : B.queues.Col)
      (w : World B)
      → first_free B codes w ≡ some code
      → B.queues.insert_one (new_queue p plan id w.now code) w.queues ≡ some c
      → ((open_queue B p plan id codes (calm w)).0 ≡ ok (new_queue p plan id w.now code))
        × Opened p
            (new_queue p plan id w.now code)
            id
            code
            w
            (open_queue B p plan id codes (calm w)).1.state
  unfolding open_queue set_rehydrated_sentinel calm
  open_queue-Opened p plan id code codes c w free stored =
      let queue = new_queue p plan id w.now code in
      let (f, k, only) = forget_host-only B queue (entered p.host_id id code c w) in
      rw
        (
          generate_join_code-claimed B id codes w,
          free,
          insert_queue-only queue c (with_code id code w) stored,
          increment-only p.host_id (record (with_code id code w) { queues = c }),
        )
        (rw only (
          refl,
          record {
            asked = new_queue-Asked p plan id w.now code;
            queues = λ i. B.queues.find_one-insert_one i queue w.queues c stored;
            current = new_queue-is_current p plan id w.now code;
            resolved = B.join_codes.get-put code id w.join_codes;
            counted = λ i. after_count-counted_for p.host_id i w;
            guests = refl;
          },
        ))

  -- When every call is answered, the slug is of the form and not reserved, one of the codes is free
  -- and the collection accepts the document, creating a queue returns it: it is stored and no other
  -- queue changes, it has the name, the host and the kind of positions that were asked for, it is
  -- ACTIVE, was created now and has not expired, its join code is the first free one and leads to it,
  -- the host's two counters go up by one and no other host changes, and no entry changes.
  pub create_queue-Opened :
      (p : Params) (plan : Option Plan) (id code : ℕ) (codes : List ℕ) (c : B.queues.Col)
      (w : World B)
      → is_valid_slug (normal_slug p.slug) ≡ true
      → is_reserved_slug (normal_slug p.slug) ≡ false
      → first_free B codes w ≡ some code
      → B.queues.insert_one (new_queue p plan id w.now code) w.queues ≡ some c
      → ((create_queue B p plan id codes (calm w)).0 ≡ ok (new_queue p plan id w.now code))
        × Opened p
            (new_queue p plan id w.now code)
            id
            code
            w
            (create_queue B p plan id codes (calm w)).1.state
  unfolding create_queue
  create_queue-Opened p plan id code codes c w valid usable free stored =
      rw (valid, usable) (open_queue-Opened p plan id code codes c w free stored)

  -- If the first code is free and claimed, and the request to store the document is lost, creating
  -- a queue with a valid slug that is not reserved fails and no queue changes, but the code leads to
  -- the queue that is not there.
  create_queue-lost_insert :
      (p : Params) (plan : Option Plan) (id code : ℕ) (codes : List ℕ) (w : World B)
      → is_valid_slug (normal_slug p.slug) ≡ true
      → is_reserved_slug (normal_slug p.slug) ≡ false
      → B.join_codes.get code w.join_codes ≡ none
      → ((create_queue B p plan id
            (code ∷ codes)
            (record (calm w) { fates = answered ∷ request_lost ∷ [] })).0
          ≡ err network)
        × ((create_queue B p plan id
              (code ∷ codes)
              (record (calm w) { fates = answered ∷ request_lost ∷ [] })).1.state
            ≡ with_code id code w)
        × (B.join_codes.get code (with_code id code w).join_codes ≡ some id)
  unfolding create_queue open_queue generate_join_code claim_join_code insert_queue calm
  create_queue-lost_insert p plan id code codes w valid usable free =
      rw (valid, usable, free) (refl, refl, B.join_codes.get-put code id w.join_codes)
