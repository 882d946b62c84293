-- ===== src/Access/Capacity.antt =====
-- internal/modules/queue/http/guest_capacity_guard.go and
-- internal/modules/queue/http/history_access_guard.go: the guards that ask for the plan of a host. A
-- reply `ok` is a call of the next handler, and an error carries the code of the answer.
use queuebuzz.Prelude.{
  first_of, ℕ, suc, ◌≤◌, ◌≡◌, refl, Bool, true, false, not, ◌&&◌, ◌||◌, Option, none, some, length,
  get_or, ltb, leb, ◌==◌, if◌then◌else◌, arith,
}
use queuebuzz.Net.{Reply, ok, err, rejected, ◌>>=◌, pure, fail, attempt, observe, calm}
use queuebuzz.Queue.Domain.{Queue}
use queuebuzz.Queue.World.{Backend, World, Call}
use queuebuzz.Queue.Repository.{get_size, positions_of}
use queuebuzz.Queue.Lookup.{get_queue, get_waiting_count}
use queuebuzz.Queue.Guest.{is_paused}
use queuebuzz.Billing.{guests, is_limit_exceeded}
use queuebuzz.Subscription.Domain.{Plan}
use queuebuzz.Subscription.Plans.{get_host_plan, get_cached_host_plan, check_history_access}

-- The empty identifier, which a queue without a host is looked up by.
abbrev pub no_host : ℕ
no_host = 0

abbrev is_full : Reply Bool → Bool
is_full (ok exceeded) = exceeded
is_full (err e) = false

has_room :
    (max n : ℕ)
    → (if max == 0 then false else leb (suc max) (suc n)) ≡ not ((max == 0) || ltb n max)
has_room max n = ground arith

-- The plan has no limit, or allows more members.
abbrev pub fits : Plan → ℕ → Bool
fits plan n = (plan.max_guests_per_queue == 0) || ltb n plan.max_guests_per_queue

module _ (B : Backend) where
  abbrev is_limit_reached : ℕ → ℕ → Call B Bool
  is_limit_reached h usage = do
    plan ← observe (get_host_plan B h)
    is_limit_exceeded B plan h guests (some usage)

  abbrev check_capacity : ℕ → Queue → Call B (Option Queue)
  check_capacity q queue = do
    count ← attempt (get_waiting_count B q)
    exceeded ← observe (is_limit_reached (get_or queue.host_id no_host) (suc (get_or count 0)))
    if is_full exceeded then fail (rejected 403) else pure (some queue)

  abbrev guard_queue : ℕ → Bool → Reply Queue → Call B (Option Queue)
  guard_queue q is_host (err e) = pure none
  guard_queue q is_host (ok queue) =
      if is_paused queue.status && not is_host then fail (rejected 403) else check_capacity q queue

  -- `is_host` says whether a middleware has set the host. What goes on to the handler is the queue.
  unfoldable pub guest_capacity_guard : Option ℕ → Bool → Call B (Option Queue)
  guest_capacity_guard none is_host = pure none
  guest_capacity_guard (some q) is_host = do
    queue ← observe (get_queue B q)
    guard_queue q is_host queue

  abbrev grant : Reply Bool → Call B (Unit {0})
  grant (ok access) = if access then pure tt else fail (rejected 403)
  grant (err e) = fail (rejected 403)

  abbrev guard_history : Option ℕ → Call B (Unit {0})
  guard_history none = fail (rejected 401)
  guard_history (some h) = do access ← observe (check_history_access B h); grant access

  -- The host, or the queue of an anonymous host.
  unfoldable pub history_access_guard : Option ℕ → Option ℕ → Call B (Unit {0})
  history_access_guard host queue = guard_history (first_of host queue)

  answered :
      (b : Bool) (queue : Queue) (w : World B)
      → (if not b then fail (rejected 403) else pure (some queue)) (calm w)
        ≡ (if b then ok (some queue) else err (rejected 403), calm w)
  answered true queue w = refl
  answered false queue w = refl

  -- When every call is answered, the queue is found and its set is not empty, the plan of its host is
  -- cached and the queue is not paused or the request is that of a host, the guard passes exactly if
  -- the plan has no limit or the set has fewer members than it allows, and nothing changes.
  pub guest_capacity_guard-fits :
      (q : ℕ) (queue : Queue) (is_host : Bool) (plan : Plan) (w : World B)
      → get_queue B q (calm w) ≡ (ok queue, calm w)
      → (is_paused queue.status && not is_host) ≡ false
      → 1 ≤ length (B.sorted.range (positions_of B q w))
      → B.plan_caches.get (get_or queue.host_id no_host) w.plan_caches ≡ some plan
      → guest_capacity_guard (some q) is_host (calm w) ≡ (
        if fits plan (length (B.sorted.range (positions_of B q w)))
            then ok (some queue)
            else err (rejected 403),
        calm w,
      )
  unfolding guest_capacity_guard get_waiting_count get_size get_host_plan get_cached_host_plan
      is_limit_exceeded calm
  guest_capacity_guard-fits q queue is_host plan w found goes_on full cached =
      let filled : (length (B.sorted.range (positions_of B q w)) == 0) ≡ false =
        ground (arith, full) in
      rw (found, goes_on, filled, cached)
        (rw (has_room plan.max_guests_per_queue (length (B.sorted.range (positions_of B q w))))
          (answered (fits plan (length (B.sorted.range (positions_of B q w)))) queue w))
