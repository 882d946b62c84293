-- ===== src/Queue/Guest.antt =====
-- `JoinQueue`, `RejoinByID`, `SessionExists`, `UpdateEntry` and `Leave` of
-- internal/modules/customer/service/service.go. An error without a status is `rejected 500`.
pub mod Duplicates
pub mod Sessions
use queuebuzz.Prelude.{
  ℕ, suc, Bool, true, false, not, ◌&&◌, ◌||◌, Option, none, some, List, [], ◌∷◌, is_empty, is_some,
  get_or, only, ltb, if◌then◌else◌, ◌==◌,
}
use queuebuzz.Net.{
  Net, Reply, ok, err, Error, rejected, ◌>>=◌, ◌>>◌, pure, fail, request, read, write, attempt,
  observe, give,
}
use queuebuzz.Lock.{acquire, release}
use queuebuzz.Queue.Domain.{
  Entry, Queue, QueueStatus, EntryStatus, active, paused, waiting, is_joined, is_terminal,
}
use queuebuzz.Queue.World.{Backend, World, Call}
use queuebuzz.Queue.Repository.{set_user_session, user_session_exists, delete_user_session}
use queuebuzz.Queue.Lookup.{of_queue, or_missing, get_entry, get_position}
use queuebuzz.Queue.Join.{Fresh, JoinResult, create_entry_for_queue}
use queuebuzz.Queue.Calling.{remove_user}

pub record JoinParams : Type 0 where
  pub queue : Option Queue
  pub entry : Entry

abbrev pub same_text : List ℕ → List ℕ → Bool
same_text [] [] = true
same_text (a ∷ s) (b ∷ t) = if a == b then same_text s t else false
same_text _ _ = false

-- `p != nil && *p != ""`
abbrev pub given_text : Option (List ℕ) → Option (List ℕ)
given_text o = only (λ t. not (is_empty t)) o

abbrev pub has_text : List ℕ → Option (List ℕ) → Bool
has_text t none = false
has_text t (some u) = same_text u t

-- The lock is for the email if there is one, or else for the phone.
unfoldable pub contact_of : Entry → Option (List ℕ)
contact_of e = elim (given_text e.email) [ none ↦ given_text e.phone | some t ↦ some t ]

abbrev pub is_paused : QueueStatus → Bool
is_paused paused = true
is_paused _ = false

abbrev pub is_active : QueueStatus → Bool
is_active active = true
is_active _ = false

-- The tests of the queue's status; `time.Now().After(ExpiresAt)`.
unfoldable pub refusal : Queue → ℕ → Option Error
refusal q now =
    if is_paused q.status
    then some (rejected 403)
    else if not (is_active q.status) || ltb q.expires_at now
    then some (rejected 500)
    else none

-- Every error of the call becomes an error without a status.
abbrev pub or_reject : {A : Type 0} → Reply A → Reply A
or_reject (ok a) = ok a
or_reject (err e) = err (rejected 500)

-- `position + 1`, where a missing member is at -1 and an error leaves 0.
abbrev pub shown_position : Option (Option ℕ) → ℕ
shown_position none = 1
shown_position (some none) = 0
shown_position (some (some i)) = suc i

abbrev pub belongs : ℕ → Option Entry → Bool
belongs q none = false
belongs q (some e) = (e.queue_id == q) && not (is_terminal e.status)

module _ (B : Backend) where
  abbrev pub clock : Call B ℕ
  clock n = (ok n.state.now, n)

  abbrev pub acquired : ℕ × List ℕ → ℕ → World B → Reply Bool × World B
  acquired k v w = let (b, m) = acquire B.locks k v w.locks in (ok b, record w { locks = m })

  unfoldable pub acquire_lock : ℕ × List ℕ → ℕ → Call B Bool
  acquire_lock k v = request (acquired k v)

  unfoldable pub release_lock : ℕ × List ℕ → ℕ → Call B (Unit {0})
  release_lock k v = write (λ w. record w { locks = release B.locks k v w.locks })

  -- A failed count counts nothing.
  unfoldable pub count_joined : ℕ → (Entry → Bool) → Call B Bool
  count_joined q p = do
    found ← attempt (read (λ w. B.entries.find (λ e. of_queue q is_joined e && p e) w.entries))
    pure (not (is_empty (get_or found [])))

  abbrev pub refuse_if : Bool → Call B (Unit {0})
  refuse_if b = if b then fail (rejected 429) else pure tt

  abbrev pub check_email : ℕ → Option (List ℕ) → Call B (Unit {0})
  check_email q none = pure tt
  check_email q (some t) = do found ← count_joined q (λ e. has_text t e.email); refuse_if found

  abbrev pub check_phone : ℕ → Option (List ℕ) → Call B (Unit {0})
  check_phone q none = pure tt
  check_phone q (some t) = do found ← count_joined q (λ e. has_text t e.phone); refuse_if found

  unfoldable pub enter_queue : Queue → Entry → List Fresh → Call B JoinResult
  enter_queue queue entry attempts = do
    check_email queue.id (given_text entry.email)
    check_phone queue.id (given_text entry.phone)
    result ← create_entry_for_queue B (some queue) (record entry { queue_id = queue.id }) attempts
    set_user_session B queue.id result.entry.id
    pure result

  -- The deferred release runs whatever the body returns.
  abbrev pub then_release : ℕ × List ℕ → ℕ → Call B JoinResult → Call B JoinResult
  then_release k v body = do result ← observe body; attempt (release_lock k v); give result

  abbrev pub locked : Queue → Option (List ℕ) → ℕ → Call B JoinResult → Call B JoinResult
  locked queue none v body = body
  locked queue (some t) v body = do
    got ← acquire_lock (queue.id, t) v
    if got then then_release (queue.id, t) v body else fail (rejected 409)

  abbrev pub unless_refused : Option Error → Call B JoinResult → Call B JoinResult
  unless_refused none body = body
  unless_refused (some e) body = fail e

  -- `v` is the random value of the lock's owner.
  unfoldable pub join_queue : JoinParams → ℕ → List Fresh → Call B JoinResult
  join_queue params v attempts = elim params.queue [
    | none ↦ fail (rejected 500)
    | some queue ↦ do
      now ← clock
      unless_refused (refusal queue now)
          (locked queue (contact_of params.entry) v (enter_queue queue params.entry attempts))
  ]

  unfoldable pub update_entry : ℕ → (Entry → Entry) → Call B (Unit {0})
  update_entry e f = write (λ w. record w { entries = B.entries.update_one e f w.entries })

  abbrev pub admit : Entry → ℕ → Bool → Call B (Unit {0})
  admit entry e exists =
      if is_terminal entry.status
      then (if exists
          then (do attempt (delete_user_session B entry.queue_id e); fail (rejected 500))
          else fail (rejected 500))
      else if exists
      then pure tt
      else (do attempt (set_user_session B entry.queue_id e); pure tt)

  unfoldable pub rejoin_by_id : ℕ → Call B JoinResult
  rejoin_by_id e = do
    found ← observe (get_entry B e)
    entry ← give (or_reject found)
    session ← observe (user_session_exists B entry.queue_id e)
    exists ← give (or_reject session)
    admit entry e exists
    position ← attempt (get_position B entry.queue_id e)
    pure (record { entry = entry; position = shown_position position })

  unfoldable pub recover_session : ℕ → ℕ → Call B Bool
  recover_session q e = do
    entry ← attempt (get_entry B e)
    let resync = attempt (set_user_session B q e) >> pure true in
        if belongs q entry then resync else pure false

  unfoldable pub session_exists : ℕ → ℕ → Call B Bool
  session_exists q e = do
    found ← attempt (user_session_exists B q e)
    if get_or found false then pure true else recover_session q e

  unfoldable pub leave : ℕ → Call B (Unit {0})
  leave e = remove_user B e
