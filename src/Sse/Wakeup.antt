-- ===== src/Sse/Wakeup.antt =====
-- internal/sse/subscriber.go and the writer loop of broker.go: publishers and the writer as
-- interleaved steps. `Send` writes the slot under the mutex and rings afterwards, so between the
-- two any other step may come; the writer takes the token first and drains afterwards.
use Prim.Native.String.{String}
use queuebuzz.Prelude.{
  ℕ, ◌+◌, ◌-◌, ◌<◌, ◌≡◌, ◌≢◌, refl, ◌⊎◌, inl, inr, Bool, true, false, List, [], ◌∷◌, ◌++◌, arith,
}
use queuebuzz.Sse.Subscriber.{Frame, Subscriber, put_latest, drain_latest}

-- A subscriber with the publishers that still have to ring, the writer's phase, and the frames
-- written so far.
pub record Session : Type 0 where
  pub sub : Subscriber
  pub pending : ℕ
  pub draining : Bool
  pub written : List Frame

pub data Step : Session → Session → Type 0 where
  -- `s.latest[eventType] = frame` between Lock and Unlock
  put :
      (c : Session) (frame : Frame) (event : String)
      → c.sub.closed ≡ false
      → Step c (record c {
        sub = record (c.sub) { latest = put_latest event frame c.sub.latest };
        pending = c.pending + 1;
      })
  -- the non-blocking send of the token
  ring :
      (c : Session)
      → 0 < c.pending
      → Step c (record c { sub = record (c.sub) { signal = true }; pending = c.pending - 1 })
  -- `case <-sub.Signal()`
  take_token :
      (c : Session)
      → c.sub.signal ≡ true
      → c.draining ≡ false
      → Step c (record c { sub = record (c.sub) { signal = false }; draining = true })
  -- `frames := sub.DrainLatest()` and the writes
  drain :
      (c : Session)
      → c.draining ≡ true
      → Step c (record c {
        sub = (drain_latest c.sub).1;
        draining = false;
        written = c.written ++ (drain_latest c.sub).0;
      })
  -- `case msg, ok := <-sub.FIFO()`
  take_fifo :
      (c : Session) (frame : Frame) (rest : List Frame)
      → c.sub.fifo ≡ frame ∷ rest
      → c.draining ≡ false
      → Step c
          (record c { sub = record (c.sub) { fifo = rest }; written = c.written ++ frame ∷ [] })

pub data Reach (c : Session) : Session → Type 0 where
  here : Reach c c
  next : {d e : Session} → Reach c d → Step d e → Reach c e

-- A filled slot is on its way: a token is there, or the writer is about to drain, or a publisher
-- is about to ring.
abbrev pub IsAwake : Session → Type 0
IsAwake c = c.sub.latest ≢ [] → (c.sub.signal ≡ true) ⊎ ((c.draining ≡ true) ⊎ (0 < c.pending))

Step-IsAwake : {c d : Session} → Step c d → IsAwake c → IsAwake d
unfolding drain_latest
Step-IsAwake (put c frame event o) h = λ n. inr (inr (omega arith))
Step-IsAwake (ring c p) h = λ n. inl refl
Step-IsAwake (take_token c s d) h = λ n. inr (inl refl)
Step-IsAwake (drain c d) h = ground arith
Step-IsAwake (take_fifo c f r e d) h = h

-- In every interleaving that starts from a session in which a filled slot is on its way to the
-- client, a filled slot is on its way.
pub Reach-IsAwake : {c d : Session} → IsAwake c → Reach c d → IsAwake d
Reach-IsAwake h here = h
Reach-IsAwake h (next r s) = Step-IsAwake s (Reach-IsAwake h r)
