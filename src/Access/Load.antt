-- ===== src/Access/Load.antt =====
-- internal/middlewares/resource_guard.go: the slots for requests that change something. A request that
-- holds a slot is in the hands of the next handler until it returns; `overloaded` is what
-- internal/limit/limit.go has found last.
pub mod Slots
use queuebuzz.Prelude.{
  ℕ, suc, ◌-◌, ◌≤◌, ◌≡◌, refl, Bool, true, false, ◌&&◌, ◌||◌, List, [], ◌∷◌, length, any, ltb, ◌==◌,
  if◌then◌else◌, same_text, arith, Bool-cases, inl, inr, ==_self, subst, sym, ap, ◌∙◌,
}
use queuebuzz.Queue.Slug.{codes}

pub data Method : Type 0 where
  get options changing : Method

pub record Request : Type 0 where
  pub id : ℕ
  pub method : Method
  pub path : List ℕ

pub data Answer : Type 0 where
  next server_overloaded concurrency_limit_exceeded : Answer

-- The semaphore, a channel with a buffer, and the requests that hold a slot of it.
pub record Semaphore : Type 0 where
  pub used : ℕ
  pub holders : List ℕ

abbrev pub max_slots : ℕ
max_slots = 1000

abbrev is_safe : Method → Bool
is_safe Method.get = true
is_safe Method.options = true
is_safe Method.changing = false

abbrev pub has_prefix : List ℕ → List ℕ → Bool
has_prefix [] path = true
has_prefix (c ∷ cs) [] = false
has_prefix (c ∷ cs) (d ∷ ds) = (c == d) && has_prefix cs ds

unfoldable pub is_bypassed : Request → Bool
is_bypassed r =
    is_safe r.method
    || same_text r.path (codes "/healthz")
    || has_prefix (codes "/api/v1/billing/webhook") r.path

abbrev pub acquire : ℕ → Semaphore → Answer × Semaphore
acquire i s =
    if ltb s.used max_slots
    then (next, record { used = suc s.used; holders = i ∷ s.holders })
    else (concurrency_limit_exceeded, s)

unfoldable pub resource_guard_middleware : Bool → Request → Semaphore → Answer × Semaphore
resource_guard_middleware overloaded r s =
    if is_bypassed r
    then (next, s)
    else (if overloaded then (server_overloaded, s) else acquire r.id s)

abbrev pub without : ℕ → List ℕ → List ℕ
without i [] = []
without i (j ∷ js) = if i == j then js else j ∷ without i js

-- The deferred release, when the handler returns.
unfoldable pub release : ℕ → Semaphore → Semaphore
release i s =
    if any (λ j. i == j) s.holders
    then record { used = s.used - 1; holders = without i s.holders }
    else s

pub data Event : Type 0 where
  arrives : Bool → Request → Event
  returns : ℕ → Event

unfoldable pub step : Event → Semaphore → Semaphore
step (arrives overloaded r) s = (resource_guard_middleware overloaded r s).1
step (returns i) s = release i s

unfoldable pub run : List Event → Semaphore → Semaphore
run [] s = s
run (e ∷ es) s = run es (step e s)
