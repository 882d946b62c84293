-- ===== src/Queue/Calling/Fairness.antt =====
-- `CallNextUser` of internal/modules/queue/service/service.go: who is called, when every call of a
-- service is answered, and what it can change, whatever happens.
use queuebuzz.Prelude.{
  ℕ, ◌≡◌, refl, inl, inr, false, Option, none, some, List, [], ◌∷◌, is_empty, if◌then◌else◌,
  Bool-cases, only, Option-cases, arith,
}
use queuebuzz.Net.{Reply, ok, err, rejected, Net, calm}
use queuebuzz.Queue.Domain.{Entry, Queue, called, is_waiting}
use queuebuzz.Queue.World.{Backend, World}
use queuebuzz.Queue.Repository.{get_queue_entry_ids, set_idle_timer, positions_of}
use queuebuzz.Queue.Lookup.{is_current, get_queue, get_entry, forget_dashboard}
use queuebuzz.Queue.Calling.{update_entry_status, call_entry, call_first, call_next_user}

module _ (B : Backend) where
  -- The first of the entries that waits.
  abbrev pub first_waiting : B.entries.Col → List ℕ → Option (ℕ × Entry)
  first_waiting c [] = none
  first_waiting c (i ∷ is) = elim (B.entries.find_one i c) [
    | none ↦ first_waiting c is
    | some e ↦ if is_waiting e.status then some (i, e) else first_waiting c is
  ]

  abbrev pub called_at : ℕ → Entry → Entry
  called_at now d = record d { status = called; updated_at = now }

  -- The reply and the new state that a call of the first waiting entry has.
  abbrev pub Calls : Option (ℕ × Entry) → World B → Reply Entry × Net (World B) → Type 0
  Calls none w r = r ≡ (err (rejected 400), calm w)
  Calls (some (i, e)) w r =
      (r.0 ≡ ok (record e { status = called }))
      × (r.1.state.entries ≡ B.entries.update_one i (called_at w.now) w.entries)
      × (r.1.state.positions ≡ w.positions)

  forget_dashboard-entries :
      (q : Option Queue) (w : World B) → (forget_dashboard B q w).entries ≡ w.entries
  forget_dashboard-entries none w = refl
  forget_dashboard-entries (some q) w = ground arith

  forget_dashboard-positions :
      (q : Option Queue) (w : World B) → (forget_dashboard B q w).positions ≡ w.positions
  forget_dashboard-positions none w = refl
  forget_dashboard-positions (some q) w = ground arith

  call_entry-Calls :
      (q i : ℕ) (e : Entry) (w : World B) → Calls (some (i, e)) w (call_entry B q i e (calm w))
  unfolding call_entry update_entry_status set_idle_timer get_queue calm
  call_entry-Calls q i e w =
      elim (Option-cases (only (is_current w.now) (B.queues.find_one q w.queues))) [
        | inl x ↦ rw x (refl, refl, refl)
        | inr (d, x) ↦
            rw x (refl, forget_dashboard-entries (some d) _, forget_dashboard-positions (some d) _)
      ]

  call_first-Calls :
      (q : ℕ) (is : List ℕ) (w : World B)
      → Calls (first_waiting w.entries is) w (call_first B q is (calm w))
  unfolding call_first get_entry calm
  call_first-Calls q [] w = refl
  call_first-Calls q (i ∷ is) w = elim (Option-cases (B.entries.find_one i w.entries)) [
    | inl e ↦ rw (e, first_waiting) (call_first-Calls q is w)
    | inr (d, e) ↦
        rw (e, first_waiting)
          (elim (Bool-cases (is_waiting d.status)) [
            | inl x ↦ rw x (call_entry-Calls q i d w)
            | inr x ↦ rw x (call_first-Calls q is w)
          ])
  ]

  -- When every call is answered and the queue's set in Redis is not empty, `CallNextUser` calls the
  -- first entry in the order of the set that waits: it returns that entry as called, makes that
  -- update and no other to the entries, and leaves the sets as they are. If none waits, it fails
  -- and changes nothing.
  pub call_next_user-Calls :
      (q : ℕ) (w : World B)
      → is_empty (B.sorted.range (positions_of B q w)) ≡ false
      → Calls
          (first_waiting w.entries (B.sorted.range (positions_of B q w)))
          w
          (call_next_user B q (calm w))
  unfolding call_next_user get_queue_entry_ids calm
  call_next_user-Calls q w h = rw h (call_first-Calls q (B.sorted.range (positions_of B q w)) w)
