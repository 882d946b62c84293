-- ===== src/Examples/Sse.antt =====
-- The event streams' theorems at small streams.
use Prim.Native.String.{String}
use queuebuzz.Prelude.{◌≡◌, refl, true, false, some, List, [], ◌∷◌, arith, index_of}
use queuebuzz.Sse.Subscriber.{Frame, Subscriber, put_latest}
use queuebuzz.Sse.Delivery.{send_all, Delivers, send_all-Delivers}
use queuebuzz.Sse.Wakeup.{Session, put, ring, here, next, IsAwake, Reach-IsAwake}
use queuebuzz.Sse.Broker.{Broker, subs_of, new_broker, subscribe, update, put_subs}
use queuebuzz.Sse.Broker.Invariant.{
  Inv, new_broker-Inv, subscribe-Inv, subscribes, unsubscribes, publishes, shuts_down, run, run-Inv,
}

-- Two coalesced events and three ordered ones, of which the last finds no room.
abbrev history : List (String × Frame)
history =
    ("position_update", b'1' ∷ [])
    ∷ ("user_called", b'2' ∷ [])
    ∷ ("position_update", b'3' ∷ [])
    ∷ ("user_called", b'4' ∷ [])
    ∷ ("user_called", b'5' ∷ [])
    ∷ []

abbrev client : Subscriber
client = record { buf_size = 2; fifo = []; latest = []; signal = false; closed = false }

send_all-Delivers_example :
    (t : Subscriber) × (send_all history client ≡ some t) × Delivers history client t
send_all-Delivers_example = send_all-Delivers history client refl

abbrev session : Session
session = record { sub = client; pending = 0; draining = false; written = [] }

-- A publisher fills the slot and rings.
abbrev after_put : Session
after_put = record session {
  sub = record client { latest = put_latest "position_update" [] [] };
  pending = 1;
}

abbrev after_ring : Session
after_ring = record after_put { sub = record (after_put.sub) { signal = true }; pending = 0 }

Reach-IsAwake_example : IsAwake after_ring
Reach-IsAwake_example =
    Reach-IsAwake {c = session} {d = after_ring} (λ n. absurd (n refl))
      (next {d = after_put} (next {d = session} here (put session [] "position_update" refl))
        (ring after_put (omega arith)))

run-Inv_example :
    (b' : Broker) × (run
        (subscribes 7 false
          ∷ subscribes 7 true
          ∷ publishes 7 (some (b'1' ∷ [])) "user_called"
          ∷ unsubscribes 7 0
          ∷ shuts_down
          ∷ [])
        new_broker
      ≡ some b')
    × Inv b'
run-Inv_example =
    run-Inv
      (subscribes 7 false
        ∷ subscribes 7 true
        ∷ publishes 7 (some (b'1' ∷ [])) "user_called"
        ∷ unsubscribes 7 0
        ∷ shuts_down
        ∷ [])
      new_broker new_broker-Inv

-- Two subscribers of a topic.
abbrev two : Broker
two = (subscribe 7 true (subscribe 7 false new_broker).1).1

two-Inv : Inv two
two-Inv = subscribe-Inv 7 true _ (subscribe-Inv 7 false new_broker new_broker-Inv)

two-open : two.once 0 ≡ false
unfolding subscribe update new_broker
two-open = refl

two-first : index_of 0 (subs_of 7 two.subs) ≡ some 0
unfolding subscribe new_broker put_subs subs_of
two-first = refl
