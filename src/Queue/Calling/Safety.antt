-- ===== src/Queue/Calling/Safety.antt =====
-- `CallNextUser` of internal/modules/queue/service/service.go: what it can change whatever the
-- fates of its calls.
use queuebuzz.Prelude.{
  ℕ, ◌≡◌, refl, ◌⊎◌, inl, inr, true, Bool-cases, Option, none, some, List, [], ◌∷◌,
}
use queuebuzz.Net.{Reply, ok, err, Net, attempt}
use queuebuzz.Net.Keeps.{
  Hoare, Keeps, Keeps-pure, Keeps-bind, Keeps-then, Keeps-attempt, bind_rule, then_rule,
  request_rule, attempt_rule,
}
use queuebuzz.Queue.Domain.{Entry, called, is_waiting}
use queuebuzz.Queue.World.{Backend, World}
use queuebuzz.Queue.Lookup.{get_entry, or_missing}
use queuebuzz.Queue.Frame.{
  On, get_queue_entry_ids-Keeps, set_idle_timer-Keeps, get_queue-Keeps, forget_dashboard-Keeps,
  rehydrate_queue-Keeps,
}
use queuebuzz.Queue.Calling.{
  update_entry_status, call_entry, call_or_next, call_first, ids_or_rehydrated, call_next_user,
}
use queuebuzz.Queue.Calling.Fairness.{called_at}

module _ (B : Backend) (c : B.entries.Col) (now : ℕ) where
  -- The entries and the clock are still those of the start.
  abbrev Start : B.entries.Col → ℕ → Type 0
  Start d t = (d ≡ c) × (t ≡ now)

  -- Or one entry, which waited, has been set to called.
  abbrev pub OneCalled : B.entries.Col → Type 0
  OneCalled d =
      (d ≡ c)
      ⊎ ((i : ℕ) × (e : Entry) × (B.entries.find_one i c ≡ some e)
          × (is_waiting e.status ≡ true)
          × (d ≡ B.entries.update_one i (called_at B now) c))

  abbrev End : B.entries.Col → ℕ → Type 0
  End d t = OneCalled d

  call_entry-OneCalled :
      (q i : ℕ) (e : Entry)
      → B.entries.find_one i c ≡ some e
      → is_waiting e.status ≡ true
      → Hoare (On B Start) (call_entry B q i e) (λ r. On B End)
  unfolding call_entry update_entry_status
  call_entry-OneCalled q i e found waits =
      then_rule (On B Start) (λ r. On B End) (λ r. On B End) _ _
        (request_rule (On B Start) (λ r. On B End) _ (λ s h. made s h) (λ s h. (inl h.0, made s h)))
        (λ a.
          Keeps-then (On B End) _ _ (Keeps-attempt (On B End) _ (set_idle_timer-Keeps B End q e.id))
            (Keeps-bind (On B End) _ _ (Keeps-attempt (On B End) _ (get_queue-Keeps B End q))
              λ queue.
                Keeps-then (On B End) _ _ (forget_dashboard-Keeps B End queue)
                  (Keeps-pure (On B End) (record e { status = called }))))
        (λ x s h. h)
    where
      made :
          (s : World B)
          → On B Start s
          → OneCalled (B.entries.update_one i (called_at B s.now) s.entries)
      made s h = inr (i, e, found, waits, rw (h.0, h.1) refl)

  -- What a read of an entry gives is in the collection.
  abbrev Found : ℕ → Reply (Option Entry) → World B → Type 0
  Found i (ok (some e)) s = On B Start s × (B.entries.find_one i c ≡ some e)
  Found i (ok none) s = On B Start s
  Found i (err x) s = On B Start s

  abbrev Read : ℕ → Reply Entry → World B → Type 0
  Read i (ok e) s = On B Start s × (B.entries.find_one i c ≡ some e)
  Read i (err x) s = On B Start s

  or_missing-Read :
      (i : ℕ) (s : World B) (o : Option Entry)
      → B.entries.find_one i c ≡ o
      → On B Start s
      → Read i (or_missing o) s
  or_missing-Read i s none e h = h
  or_missing-Read i s (some d) e h = (h, e)

  get_entry-Found : (i : ℕ) → Hoare (On B Start) (attempt (get_entry B i)) (Found i)
  unfolding get_entry
  get_entry-Found i =
      attempt_rule (On B Start) (Read i) (Found i) _
        (request_rule (On B Start) (Read i) _ (λ s h. or_missing-Read i s _ (rw (← h.0) refl) h)
          (λ s h. (h, h)))
        (λ a s h. h) (λ x s h. h)

  call_first-OneCalled :
      (q : ℕ) (is : List ℕ) → Hoare (On B Start) (call_first B q is) (λ r. On B End)
  unfolding call_first
  call_first-OneCalled q [] = λ n h. inl h.0
  call_first-OneCalled q (i ∷ is) =
      bind_rule (On B Start) (Found i) (λ r. On B End) _ _ (get_entry-Found i)
        (step (call_first-OneCalled q is)) (λ x s h. inl h.0)
    where
      step :
          Hoare (On B Start) (call_first B q is) (λ r. On B End)
          → (o : Option Entry)
          → Hoare (Found i (ok o)) (call_or_next B q i o (call_first B q is)) (λ r. On B End)
      step next none n h = next n h
      step next (some e) n h = elim (Bool-cases (is_waiting e.status)) [
        | inl w ↦ rw w (call_entry-OneCalled q i e h.1 w n h.0)
        | inr w ↦ rw w (next n h.0)
      ]

  -- Whatever the fates of the calls, `CallNextUser` leaves the entries as they are, or sets the
  -- status of one entry, which was waiting, to called.
  pub call_next_user-OneCalled :
      (q : ℕ) (n : Net (World B))
      → n.state.entries ≡ c
      → n.state.now ≡ now
      → OneCalled (call_next_user B q n).1.state.entries
  unfolding call_next_user
  call_next_user-OneCalled q n e t =
      bind_rule (On B Start) (λ r. On B Start) (λ r. On B End) _ _
        (get_queue_entry_ids-Keeps B Start q)
        (λ found.
          bind_rule (On B Start) (λ r. On B Start) (λ r. On B End) _ _ (ids found)
            (call_first-OneCalled q) (λ x s h. inl h.0))
        (λ x s h. inl h.0) n (e, t)
    where
      ids : (found : List ℕ) → Keeps (On B Start) (ids_or_rehydrated B q found)
      ids [] = rehydrate_queue-Keeps B Start q
      ids (i ∷ is) = Keeps-pure (On B Start) (i ∷ is)
