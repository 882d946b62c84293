-- ===== src/Sse/Broker/Invariant.antt =====
-- internal/sse/broker.go: the hub never sends on a closed channel and never closes one twice.
use Prim.Native.String.{String}
use queuebuzz.Prelude.{
  if◌then◌else◌, ap, ℕ, ◌+◌, ◌≤◌, ◌<◌, ◌≡◌, refl, Bool, true, false, Option, none, some, List, [],
  ◌∷◌, ◌++◌, arith, ◌==◌, index_of, count, ◌∙◌, sym, ==_iff, drop, Option-cases, Bool-cases, inl,
  inr,
}
use queuebuzz.Sse.Subscriber.{Frame, Subscriber, new_subscriber, close, drain_latest}
use queuebuzz.Sse.Delivery.{deliver, send-deliver, deliver-closed}
use queuebuzz.Sse.Broker.{
  Broker, update, subs_of, swap_remove, store_rest, new_broker, subscribe, detach, unsubscribe,
  shutdown, send_each, publish_local,
}
use queuebuzz.Sse.Broker.Pointers.{
  held, count-append, held-put_subs, held-store_rest, count-le-held, same, count-swap_remove,
}

-- Each pointer in the map stands there once, was handed out, and is open.
pub record Inv (b : Broker) : Type 0 where
  pub single : (p : ℕ) → held p b.subs ≤ 1
  pub known : (p : ℕ) → 0 < held p b.subs → p < b.fresh
  pub opened : (p : ℕ) → 0 < held p b.subs → (b.heap p).closed ≡ false

pub new_broker-Inv : Inv new_broker
unfolding new_broker
new_broker-Inv = record {
  single = λ p. omega arith;
  known = λ p h. omega arith;
  opened = λ p h. absurd (omega arith);
}

held-subscribe :
    (topic : ℕ) (o : Bool) (b : Broker) (p : ℕ)
    → held p (subscribe topic o b).1.subs ≡ held p b.subs + same b.fresh p
unfolding subscribe
held-subscribe topic o b p = ground (
  arith,
  held-put_subs p topic (subs_of topic b.subs ++ b.fresh ∷ []) b.subs,
  count-append p (subs_of topic b.subs) (b.fresh ∷ []),
)

pub subscribe-Inv : (topic : ℕ) (o : Bool) (b : Broker) → Inv b → Inv (subscribe topic o b).1
unfolding subscribe update new_subscriber
subscribe-Inv topic o b v = record {
  single = λ p. ground (arith, held-subscribe topic o b p, v.single p, v.known p);
  known = λ p h. ground (arith, held-subscribe topic o b p, v.known p);
  opened = λ p h. ground (arith, held-subscribe topic o b p, v.opened p);
}

held-detach :
    (topic q i : ℕ) (b : Broker) (p : ℕ)
    → index_of q (subs_of topic b.subs) ≡ some i
    → held p (store_rest topic (swap_remove i (subs_of topic b.subs)) b.subs) + same q p
      ≡ held p b.subs
held-detach topic q i b p e = omega (
  arith,
  held-store_rest p topic (swap_remove i (subs_of topic b.subs)) b.subs,
  count-swap_remove p q i (subs_of topic b.subs) e,
)

detach-Inv : (topic q : ℕ) (b : Broker) → Inv b → Inv (detach topic q b)
unfolding detach update close
detach-Inv topic q b v = elim (Option-cases (index_of q (subs_of topic b.subs))) [
  | inl e ↦ rw (e, detach) v
  | inr (i, e) ↦
      rw (e, detach)
        (record {
          single = λ p. omega (arith, held-detach topic q i b p e, v.single p);
          known = λ p h. v.known p (omega (arith, held-detach topic q i b p e));
          opened = λ p h. ground (arith, held-detach topic q i b p e, v.single p, v.opened p);
        })
]

pub unsubscribe-Inv : (topic q : ℕ) (b : Broker) → Inv b → Inv (unsubscribe topic q b)
unfolding unsubscribe
unsubscribe-Inv topic q b v = elim (Bool-cases (b.once q)) [
  | inl e ↦ rw (e, unsubscribe) v
  | inr e ↦
      rw (e, unsubscribe)
        (detach-Inv topic q _ (record { single = v.single; known = v.known; opened = v.opened }))
]

pub shutdown-Inv : (b : Broker) → Inv b → Inv (shutdown b)
unfolding shutdown
shutdown-Inv b v = record {
  single = λ p. ground (arith, v.single p);
  known = λ p h. ground (arith, v.known p);
  opened = λ p h. ground (arith, v.opened p);
}

-- The pointers of a list are open.
abbrev Open : List ℕ → (ℕ → Subscriber) → Type 0
Open ps heap = (p : ℕ) → 0 < count p ps → (heap p).closed ≡ false

update-closed :
    (p q : ℕ) (s : Subscriber) (heap : ℕ → Subscriber)
    → s.closed ≡ (heap p).closed
    → (update p s heap q).closed ≡ (heap q).closed
unfolding update
update-closed p q s heap h = elim (Bool-cases (p == q)) [
  | inl e ↦ rw (e, ← (==_iff p q).0 e) h
  | inr e ↦ rw e refl
]

send_each_lem :
    (frame : Frame) (event : String) (ps : List ℕ) (heap : ℕ → Subscriber)
    → Open ps heap
    → (heap' : ℕ → Subscriber) × (send_each frame event ps heap ≡ some heap')
      × ((q : ℕ) → (heap' q).closed ≡ (heap q).closed)
unfolding send_each
send_each_lem frame event [] heap o = (heap, refl, λ q. refl)
send_each_lem frame event (p ∷ ps) heap o =
    let c : (heap p).closed ≡ false = o p (ground arith) in
    let s = deliver frame event (heap p) in
    let same_closed =
      λ (q : ℕ). update-closed p q s heap (deliver-closed frame event (heap p) c ∙ sym c) in
    let (heap', e, k) =
      send_each_lem frame event ps (update p s heap) (λ q h. same_closed q ∙ o q (ground arith)) in
    (heap', rw (send-deliver frame event (heap p) c, send_each) e, λ q. k q ∙ same_closed q)

publish_local-Inv :
    (topic : ℕ) (frame : Option Frame) (event : String) (b : Broker)
    → Inv b
    → (b' : Broker) × (publish_local topic frame event b ≡ some b') × Inv b'
unfolding publish_local
publish_local-Inv topic none event b v = (b, refl, v)
publish_local-Inv topic (some frame) event b v =
    let (heap', e, k) =
      send_each_lem frame event (subs_of topic b.subs) b.heap
        (λ p h. v.opened p (omega (arith, count-le-held p topic b.subs))) in
    (
      record b { heap = heap' },
      rw (e, publish_local) refl,
      record { single = v.single; known = v.known; opened = λ p h. k p ∙ v.opened p h },
    )

-- What the program does with the hub; the writers drain and receive between the other calls.
pub data Op : Type 0 where
  subscribes : ℕ → Bool → Op
  unsubscribes : ℕ → ℕ → Op
  publishes : ℕ → Option Frame → String → Op
  drains receives : ℕ → Op
  shuts_down : Op

receive : Subscriber → Subscriber
receive s = record s { fifo = drop 1 s.fifo }

unfoldable pub step : Op → Broker → Option Broker
unfolding receive
step (subscribes topic o) b = some (subscribe topic o b).1
step (unsubscribes topic p) b = some (unsubscribe topic p b)
step (publishes topic frame event) b = publish_local topic frame event b
step (drains p) b = some (record b { heap = update p (drain_latest (b.heap p)).1 b.heap })
step (receives p) b = some (record b { heap = update p (receive (b.heap p)) b.heap })
step shuts_down b = some (shutdown b)

unfoldable pub run : List Op → Broker → Option Broker
run [] b = some b
run (o ∷ os) b = elim (step o b) [ none ↦ none | some b' ↦ run os b' ]

drain_latest-closed : (s : Subscriber) → (drain_latest s).1.closed ≡ s.closed
unfolding drain_latest
drain_latest-closed s = ground arith

heap-Inv :
    (b : Broker) (p : ℕ) (s : Subscriber)
    → s.closed ≡ (b.heap p).closed
    → Inv b
    → Inv (record b { heap = update p s b.heap })
heap-Inv b p s e v = record {
  single = v.single;
  known = v.known;
  opened = λ q h. update-closed p q s b.heap e ∙ v.opened q h;
}

step-Inv : (o : Op) (b : Broker) → Inv b → (b' : Broker) × (step o b ≡ some b') × Inv b'
unfolding step
step-Inv (subscribes topic o) b v = (_, refl, subscribe-Inv topic o b v)
step-Inv (unsubscribes topic p) b v = (_, refl, unsubscribe-Inv topic p b v)
step-Inv (publishes topic frame event) b v = publish_local-Inv topic frame event b v
step-Inv (drains p) b v = (_, refl, heap-Inv b p _ (drain_latest-closed (b.heap p)) v)
step-Inv (receives p) b v = (_, refl, heap-Inv b p _ refl v)
step-Inv shuts_down b v = (_, refl, shutdown-Inv b v)

-- From a broker in which every pointer in the map stands there once, was handed out and is open,
-- any sequence of subscriptions, cancellations, publications, reads by the writers and shutdowns
-- runs to its end without a send on a closed channel, and the broker is again such a one.
pub run-Inv : (os : List Op) (b : Broker) → Inv b → (b' : Broker) × (run os b ≡ some b') × Inv b'
unfolding run
run-Inv [] b v = (b, refl, v)
run-Inv (o ∷ os) b v =
    let (c, e, w) = step-Inv o b v in let (b', e', w') = run-Inv os c w in (b', rw (e, run) e', w')

unsubscribe-held :
    (topic p i : ℕ) (b : Broker)
    → Inv b
    → b.once p ≡ false
    → index_of p (subs_of topic b.subs) ≡ some i
    → held p (unsubscribe topic p b).subs ≡ 0
unfolding unsubscribe detach
unsubscribe-held topic p i b v o e =
    rw (o, e, detach) (ground (arith, held-detach topic p i b p e, v.single p))

-- Cancelling a subscription, for the first time, that stands under its topic takes it out of the
-- map, closes it, and leaves how often any other pointer stands in the map as it was.
unsubscribe_removes :
    (topic p i : ℕ) (b : Broker)
    → Inv b
    → b.once p ≡ false
    → index_of p (subs_of topic b.subs) ≡ some i
    → (((unsubscribe topic p b).heap p).closed ≡ true)
      × ((q : ℕ) → held q (unsubscribe topic p b).subs ≡ (if p == q then 0 else held q b.subs))
unfolding unsubscribe detach update close
unsubscribe_removes topic p i b v o e = (
  rw (o, e, detach) (ground arith),
  λ q. elim (Bool-cases (p == q)) [
    | inl x ↦ rw x (
        ap (λ j. held j (unsubscribe topic p b).subs) (sym ((==_iff p q).0 x))
        ∙ unsubscribe-held topic p i b v o e)
    | inr x ↦ rw (o, e, detach, x) (ground (arith, held-detach topic p i b q e))
  ],
)
