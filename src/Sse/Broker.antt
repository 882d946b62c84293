-- ===== src/Sse/Broker.antt =====
-- internal/sse/broker.go: the topics and their subscribers. Subscribers are shared pointers, so
-- the broker's state is a heap of them with the map `subs` from topics to pointers; `once` says of
-- a pointer whether its `unsubscribe` has run. Topics are opaque names, compared for equality
-- only. Each operation holds the mutex throughout and is one step; `none` is a panic.
pub mod Pointers
pub mod Invariant
use Prim.Native.String.{String}
use queuebuzz.Prelude.{
  ℕ, zero, suc, ◌+◌, Bool, true, false, Option, none, some, List, [], ◌∷◌, ◌++◌, length, ltb, ◌==◌,
  if◌then◌else◌, is_empty, index_of,
}
use queuebuzz.Sse.Subscriber.{Frame, Subscriber, new_subscriber, send, close}

abbrev pub Subs : Type 0
Subs = List (ℕ × List ℕ)

pub record Broker : Type 0 where
  pub heap : ℕ → Subscriber
  pub fresh : ℕ
  pub subs : Subs
  pub once : ℕ → Bool
  pub closed : Bool

unfoldable pub update {ℓ} : {A : Type ℓ} → ℕ → A → (ℕ → A) → ℕ → A
update p a f q = if p == q then a else f q

-- `b.subs[topic]`, nil for a missing key
unfoldable pub subs_of : ℕ → Subs → List ℕ
subs_of topic [] = []
subs_of topic ((t, ps) ∷ m) = if t == topic then ps else subs_of topic m

-- `b.subs[topic] = ps`
unfoldable pub put_subs : ℕ → List ℕ → Subs → Subs
put_subs topic ps [] = (topic, ps) ∷ []
put_subs topic ps ((t, qs) ∷ m) = if t == topic then (t, ps) ∷ m else (t, qs) ∷ put_subs topic ps m

-- `delete(b.subs, topic)`
unfoldable pub delete_subs : ℕ → Subs → Subs
delete_subs topic [] = []
delete_subs topic ((t, qs) ∷ m) = if t == topic then m else (t, qs) ∷ delete_subs topic m

unfoldable pub new_broker : Broker
new_broker = record {
  heap = λ p. new_subscriber 0;
  fresh = 0;
  subs = [];
  once = λ p. false;
  closed = false;
}

abbrev pub subscriber_buf_size : ℕ
subscriber_buf_size = 16

-- The pointer stands for the subscriber and for its `unsubscribe` too.
unfoldable pub subscribe : ℕ → Bool → Broker → ℕ × Broker
subscribe topic overloaded b = (
  b.fresh,
  record b {
    heap = update b.fresh (new_subscriber (if overloaded then 4 else subscriber_buf_size)) b.heap;
    fresh = suc b.fresh;
    subs = put_subs topic (subs_of topic b.subs ++ b.fresh ∷ []) b.subs;
    once = update b.fresh false b.once;
  },
)

abbrev pub last_or : ℕ → List ℕ → ℕ
last_or d [] = d
last_or d (p ∷ []) = p
last_or d (p ∷ q ∷ ps) = last_or d (q ∷ ps)

abbrev pub drop_last : List ℕ → List ℕ
drop_last [] = []
drop_last (p ∷ []) = []
drop_last (p ∷ q ∷ ps) = p ∷ drop_last (q ∷ ps)

abbrev pub set : List ℕ → ℕ → ℕ → List ℕ
set [] i v = []
set (x ∷ xs) zero v = v ∷ xs
set (x ∷ xs) (suc i) v = x ∷ set xs i v

-- The last pointer moves to the freed index.
unfoldable pub swap_remove : ℕ → List ℕ → List ℕ
swap_remove i ps = drop_last (set ps i (last_or 0 ps))

unfoldable pub store_rest : ℕ → List ℕ → Subs → Subs
store_rest topic ps m = if is_empty ps then delete_subs topic m else put_subs topic ps m

unfoldable pub detach : ℕ → ℕ → Broker → Broker
unfolding swap_remove store_rest
detach topic p b = elim (index_of p (subs_of topic b.subs)) [
  | none ↦ b
  | some i ↦ record b {
    subs = store_rest topic (swap_remove i (subs_of topic b.subs)) b.subs;
    heap = update p (close (b.heap p)) b.heap;
  }
]

unfoldable pub unsubscribe : ℕ → ℕ → Broker → Broker
unsubscribe topic p b =
    if b.once p then b else detach topic p (record b { once = update p true b.once })

close_each : List ℕ → (ℕ → Subscriber) → ℕ → Subscriber
close_each [] heap = heap
close_each (p ∷ ps) heap = close_each ps (update p (close (heap p)) heap)

close_topics : Subs → (ℕ → Subscriber) → ℕ → Subscriber
close_topics [] heap = heap
close_topics ((t, ps) ∷ m) heap = close_topics m (close_each ps heap)

-- Every topic is deleted in the loop, so the map ends empty.
unfoldable pub shutdown : Broker → Broker
unfolding close_topics close_each
shutdown b =
    if b.closed then b else record b { closed = true; subs = []; heap = close_topics b.subs b.heap }

-- The loop of `PublishLocal`.
unfoldable pub send_each : Frame → String → List ℕ → (ℕ → Subscriber) → Option (ℕ → Subscriber)
send_each frame event [] heap = some heap
send_each frame event (p ∷ ps) heap = elim (send frame event (heap p)) [
  | none ↦ none
  | some s ↦ send_each frame event ps (update p s heap)
]

-- `extractEventType` and `buildFrame` read JSON, so the event and the frame are arguments; no
-- frame is built of an empty payload.
unfoldable pub publish_local : ℕ → Option Frame → String → Broker → Option Broker
publish_local topic none event b = some b
publish_local topic (some frame) event b =
    elim (send_each frame event (subs_of topic b.subs) b.heap) [
      | none ↦ none
      | some heap ↦ some (record b { heap = heap })
    ]

unfoldable pub topics : Broker → ℕ
topics b = length b.subs
