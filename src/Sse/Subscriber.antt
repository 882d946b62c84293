-- ===== src/Sse/Subscriber.antt =====
-- internal/sse/subscriber.go: one client's delivery channel. A frame is its bytes. The buffered
-- channel `fifo` is the list of frames in it, oldest first, with its capacity; `latest` is the
-- map as an association list; `signal`, a channel of capacity one, is whether it holds a token.
-- `none` is a panic.
use Prim.Native.String.{String}
use text.Mathlib.Text.{◌==◌ as str_eq}
use queuebuzz.Prelude.{
  ℕ, Bool, true, false, ◌||◌, Option, none, some, List, [], ◌∷◌, ◌++◌, length, ltb, if◌then◌else◌,
  is_empty,
}

abbrev pub Frame : Type 0
Frame = List ℕ

abbrev pub Slots : Type 0
Slots = List (String × Frame)

pub record Subscriber : Type 0 where
  pub buf_size : ℕ
  pub fifo : List Frame
  pub latest : Slots
  pub signal : Bool
  pub closed : Bool

unfoldable pub new_subscriber : ℕ → Subscriber
new_subscriber buf_size = record {
  buf_size = buf_size;
  fifo = [];
  latest = [];
  signal = false;
  closed = false;
}

-- The map `coalescingEvents`.
unfoldable pub is_coalescing : String → Bool
is_coalescing event =
    str_eq event "position_update"
    || (str_eq event "waiting_count_updated" || str_eq event "heads_up")

-- `m[event] = frame`
unfoldable pub put_latest : String → Frame → Slots → Slots
put_latest event frame [] = (event, frame) ∷ []
put_latest event frame ((e, f) ∷ m) =
    if str_eq e event then (e, frame) ∷ m else (e, f) ∷ put_latest event frame m

unfoldable pub get_latest : String → Slots → Option Frame
get_latest event [] = none
get_latest event ((e, f) ∷ m) = if str_eq e event then some f else get_latest event m

unfoldable pub send_latest : Frame → String → Subscriber → Subscriber
send_latest frame event s =
    if s.closed then s else record s { latest = put_latest event frame s.latest; signal = true }

-- The send on the channel panics if it is closed, and is dropped if its buffer is full.
unfoldable pub send_fifo : Frame → Subscriber → Option Subscriber
send_fifo frame s =
    if s.closed
    then none
    else some
        (if ltb (length s.fifo) s.buf_size then record s { fifo = s.fifo ++ frame ∷ [] } else s)

unfoldable pub send : Frame → String → Subscriber → Option Subscriber
unfolding send_latest send_fifo
send frame event s =
    if is_coalescing event then some (send_latest frame event s) else send_fifo frame s

frames_of : Slots → List Frame
frames_of [] = []
frames_of ((e, f) ∷ m) = f ∷ frames_of m

-- The frames come in the order of the map's iteration, which is any order.
unfoldable pub drain_latest : Subscriber → List Frame × Subscriber
unfolding frames_of
drain_latest s =
    if is_empty s.latest then ([], s) else (frames_of s.latest, record s { latest = [] })

unfoldable pub close : Subscriber → Subscriber
close s = if s.closed then s else record s { closed = true }
