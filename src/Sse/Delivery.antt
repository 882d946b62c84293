-- ===== src/Sse/Delivery.antt =====
-- internal/sse/subscriber.go: what reaches a client.
use Prim.Native.String.{String}
use text.Mathlib.Text.{◌==◌ as str_eq}
use text.Mathlib.TextEquality.{eq_iff}
use queuebuzz.Prelude.{
  ℕ, suc, ◌-◌, ◌<◌, ◌≡◌, refl, true, false, Option, none, some, List, [], ◌∷◌, ◌++◌, arith,
  Bool-cases, inl, inr, sym, ◌∙◌, ltb→lt, if◌then◌else◌, length, take-nil, take, length-append, ltb,
}
use mathlib.Core.List.{append-nil, append_assoc}
use queuebuzz.Sse.Subscriber.{Frame, Slots, Subscriber, put_latest, get_latest, is_coalescing, send}

pub get_latest-put_latest :
    (event other : String) (frame : Frame) (m : Slots)
    → get_latest other (put_latest event frame m)
      ≡ (if str_eq event other then some frame else get_latest other m)
unfolding get_latest put_latest
get_latest-put_latest event other frame [] = refl
get_latest-put_latest event other frame ((e, f) ∷ m) = ground (
  arith,
  eq_iff event other,
  eq_iff e event,
  eq_iff e other,
  get_latest-put_latest event other frame m,
)

-- Sends to one subscriber, one after another; `none` is a panic.
unfoldable pub send_all : List (String × Frame) → Subscriber → Option Subscriber
send_all [] s = some s
send_all ((event, frame) ∷ fs) s = elim (send frame event s) [
  | none ↦ none
  | some s' ↦ send_all fs s'
]

-- The last frame of an event in a history, if the event is sent again there.
unfoldable pub last_of : String → List (String × Frame) → Option Frame → Option Frame
last_of event [] old = old
last_of event ((e, f) ∷ fs) old = last_of event fs (if str_eq e event then some f else old)

-- The frames of a history that go through the ordered channel.
unfoldable pub ordered : List (String × Frame) → List Frame
ordered [] = []
ordered ((e, f) ∷ fs) = if is_coalescing e then ordered fs else f ∷ ordered fs

-- What a history leaves in an open subscriber.
pub record Delivers (fs : List (String × Frame)) (s t : Subscriber) : Type 0 where
  pub still_open : t.closed ≡ false
  pub same_size : t.buf_size ≡ s.buf_size
  pub in_order : t.fifo ≡ s.fifo ++ take (s.buf_size - length s.fifo) (ordered fs)
  pub latest_wins :
      (event : String)
      → is_coalescing event ≡ true
      → get_latest event t.latest ≡ last_of event fs (get_latest event s.latest)

-- `send` on an open subscriber.
unfoldable pub deliver : Frame → String → Subscriber → Subscriber
deliver frame event s =
    if is_coalescing event
    then record s { latest = put_latest event frame s.latest; signal = true }
    else (if ltb (length s.fifo) s.buf_size then record s { fifo = s.fifo ++ frame ∷ [] } else s)

pub send-deliver :
    (frame : Frame) (event : String) (s : Subscriber)
    → s.closed ≡ false
    → send frame event s ≡ some (deliver frame event s)
unfolding send deliver
send-deliver frame event s o = ground arith

pub deliver-closed :
    (frame : Frame) (event : String) (s : Subscriber)
    → s.closed ≡ false
    → (deliver frame event s).closed ≡ false
unfolding deliver
deliver-closed frame event s o = ground arith

deliver-size :
    (frame : Frame) (event : String) (s : Subscriber)
    → (deliver frame event s).buf_size ≡ s.buf_size
unfolding deliver
deliver-size frame event s = ground arith

deliver-latest :
    (frame : Frame) (event other : String) (s : Subscriber)
    → is_coalescing other ≡ true
    → get_latest other (deliver frame event s).latest
      ≡ (if str_eq event other then some frame else get_latest other s.latest)
unfolding deliver
deliver-latest frame event other s h =
    ground (arith, get_latest-put_latest event other frame s.latest, eq_iff event other)

take-enqueue :
    (q fs : List Frame) (f : Frame) (n : ℕ)
    → length q < n
    → q ++ take (n - length q) (f ∷ fs) ≡ (q ++ f ∷ []) ++ take (n - length (q ++ f ∷ [])) fs
take-enqueue q fs f n h =
    let e : n - length q ≡ suc (n - length (q ++ f ∷ [])) =
      omega (arith, length-append q (f ∷ [])) in
    rw (e, append_assoc q (f ∷ [])) refl

deliver-fifo :
    (frame : Frame) (event : String) (fs : List (String × Frame)) (s : Subscriber)
    → (deliver frame event s).fifo
        ++ take
            ((deliver frame event s).buf_size - length (deliver frame event s).fifo)
            (ordered fs)
      ≡ s.fifo ++ take (s.buf_size - length s.fifo) (ordered ((event, frame) ∷ fs))
unfolding deliver ordered
deliver-fifo frame event fs s = elim (Bool-cases (is_coalescing event)) [
  | inl c ↦ rw c refl
  | inr c ↦ rw c (elim (Bool-cases (ltb (length s.fifo) s.buf_size)) [
    | inl l ↦ rw l (sym (take-enqueue s.fifo (ordered fs) frame s.buf_size (ltb→lt _ _ l)))
    | inr l ↦ let z : s.buf_size - length s.fifo ≡ 0 = ground arith in rw (l, z) refl
  ])
]

-- A history sent to an open subscriber never panics and leaves it open. The ordered frames stand
-- in the channel in the order of the sends, as many of the first ones as there was room for, and
-- each coalescing event's slot holds its last frame.
pub send_all-Delivers :
    (fs : List (String × Frame)) (s : Subscriber)
    → s.closed ≡ false
    → (t : Subscriber) × (send_all fs s ≡ some t) × Delivers fs s t
unfolding send_all last_of ordered
send_all-Delivers [] s o = (
  s,
  refl,
  record {
    still_open = o;
    same_size = refl;
    in_order = rw (take-nil (s.buf_size - length s.fifo)) (sym (append-nil s.fifo));
    latest_wins = λ e c. refl;
  },
)
send_all-Delivers ((event, frame) ∷ fs) s o =
    let (t, e, d) = send_all-Delivers fs (deliver frame event s) (deliver-closed frame event s o) in
    (
      t,
      rw (send-deliver frame event s o, send_all) e,
      record {
        still_open = d.still_open;
        same_size = d.same_size ∙ deliver-size frame event s;
        in_order = d.in_order ∙ deliver-fifo frame event fs s;
        latest_wins = λ ev c. rw (← deliver-latest frame event ev s c) (d.latest_wins ev c);
      },
    )
