-- ===== src/Queue/Guest/Sessions.antt =====
-- `SessionExists` and `RejoinByID` of internal/modules/customer/service/service.go: whose session
-- is open.
use queuebuzz.Prelude.{
  ℕ, ◌≡◌, refl, Bool, true, false, ◌||◌, Bool-cases, inl, inr, some, is_some, ◌∷◌, [],
  if◌then◌else◌,
}
use queuebuzz.Net.{
  answered, request_lost, is_nil, Net, Reply, ok, err, ◌>>◌, attempt, calm, fail, rejected,
}
use queuebuzz.Net.Keeps.{Hoare, bind_rule, then_rule}
use queuebuzz.Queue.Domain.{Entry, is_terminal}
use queuebuzz.Queue.World.{Backend, World}
use queuebuzz.Queue.Repository.{
  set_user_session, user_session_exists, delete_user_session, rank, get_size,
  has_rehydrated_sentinel, set_rehydrated_sentinel,
}
use queuebuzz.Queue.Lookup.{
  settle-or_missing, get_entry, get_position, retry_position, rehydrate_queue, get_queue_entries,
}
use queuebuzz.Queue.Join.{JoinResult}
use queuebuzz.Queue.Guest.{admit, belongs, recover_session, session_exists, rejoin_by_id}

module _ (B : Backend) where
  -- When every call is answered, a guest has a session if Redis has it, or if the entry belongs to
  -- the queue and its stay has not ended, and in both cases Redis has it afterwards.
  session_exists-belongs :
      (q e : ℕ) (w : World B)
      → ((session_exists B q e (calm w)).0
          ≡ ok (
              is_some (B.sessions.get (q, e) w.sessions)
              || belongs q (B.entries.find_one e w.entries)))
        × (is_some (B.sessions.get (q, e) (session_exists B q e (calm w)).1.state.sessions) ≡ (
            is_some (B.sessions.get (q, e) w.sessions)
            || belongs q (B.entries.find_one e w.entries)))
  unfolding session_exists recover_session user_session_exists set_user_session get_entry calm
  session_exists-belongs q e w = elim (Bool-cases (is_some (B.sessions.get (q, e) w.sessions))) [
    | inl x ↦ rw x (refl, x)
    | inr x ↦
        rw (x, settle-or_missing (B.entries.find_one e w.entries) _)
          (elim (Bool-cases (belongs q (B.entries.find_one e w.entries))) [
            | inl y ↦ rw y (refl, rw (B.sessions.get-put (q, e) tt w.sessions) refl)
            | inr y ↦ rw y (refl, x)
          ])
  ]

  abbrev Any : World B → Type 0
  Any w = Unit {0}

  -- A guest who was let in has a stay that has not ended.
  abbrev Admitted : Entry → Reply (Unit {0}) → World B → Type 0
  Admitted d (ok a) w = is_terminal d.status ≡ false
  Admitted d (err e) w = Unit {0}

  abbrev pub IsLive : Reply JoinResult → Type 0
  IsLive (ok r) = is_terminal r.entry.status ≡ false
  IsLive (err e) = Unit {0}

  not_terminal-Admitted :
      (d : Entry)
      → is_terminal d.status ≡ false
      → (r : Reply (Unit {0})) (w : World B) → Admitted d r w
  not_terminal-Admitted d h (ok a) w = h
  not_terminal-Admitted d h (err e) w = tt

  admit-Admitted : (d : Entry) (e : ℕ) (b : Bool) → Hoare Any (admit B d e b) (Admitted d)
  admit-Admitted d e b = elim (Bool-cases (is_terminal d.status)) [
    | inl x ↦
        rw x
          (elim b
            as (λ b.
              Hoare Any
                (if b
                  then (attempt (delete_user_session B d.queue_id e) >> fail (rejected 500))
                  else fail (rejected 500))
                (Admitted d)) [
                  | true ↦
                      then_rule Any (λ r. Any) (Admitted d) _ _ (λ n h. tt) (λ a n h. tt)
                        (λ x s h. tt)
                  | false ↦ λ n h. tt
                ])
    | inr x ↦ λ n h. not_terminal-Admitted d x _ _
  ]

  -- Whatever the fates of the calls, a guest who rejoins is not one whose stay had ended when the
  -- entry was read.
  rejoin_by_id-IsLive : (e : ℕ) (n : Net (World B)) → IsLive (rejoin_by_id B e n).0
  unfolding rejoin_by_id
  rejoin_by_id-IsLive e n =
      bind_rule Any (λ r. Any) (λ r s. IsLive r) _ _ (λ n h. tt)
        (λ found.
          bind_rule Any (λ r. Any) (λ r s. IsLive r) _ _ (λ n h. tt)
            (λ entry.
              bind_rule Any (λ r. Any) (λ r s. IsLive r) _ _ (λ n h. tt)
                (λ session.
                  bind_rule Any (λ r. Any) (λ r s. IsLive r) _ _ (λ n h. tt)
                    (λ exists.
                      then_rule Any (Admitted entry) (λ r s. IsLive r) _ _
                        (admit-Admitted entry e exists)
                        (λ a.
                          bind_rule (Admitted entry (ok a))
                            (λ r s. is_terminal entry.status ≡ false) (λ r s. IsLive r) _ _
                            (λ n h. h) (λ p n h. h) (λ x s h. tt))
                        (λ x s h. tt))
                    (λ x s h. tt))
                (λ x s h. tt))
            (λ x s h. tt))
        (λ x s h. tt) n tt

  -- If the entry and the session are read and every later call is lost, a guest whose stay has not
  -- ended is shown at the first position.
  rejoin_by_id-lost :
      (e : ℕ) (d : Entry) (w : World B)
      → B.entries.find_one e w.entries ≡ some d
      → is_terminal d.status ≡ false
      → is_some (B.sessions.get (d.queue_id, e) w.sessions) ≡ true
      → (rejoin_by_id B e (record (calm w) {
        fates =
            answered ∷ answered ∷ request_lost ∷ request_lost ∷ request_lost ∷ request_lost
            ∷ request_lost ∷ request_lost ∷ request_lost ∷ request_lost ∷ request_lost ∷ [];
      })).0
        ≡ ok (record { entry = d; position = 1 })
  unfolding is_nil rejoin_by_id user_session_exists get_entry get_position retry_position
      rehydrate_queue get_queue_entries set_rehydrated_sentinel has_rehydrated_sentinel rank
      get_size calm
  rejoin_by_id-lost e d w h k s = rw (h, s, admit, k) refl
