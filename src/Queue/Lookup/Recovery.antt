-- ===== src/Queue/Lookup/Recovery.antt =====
-- `rehydrateQueue` and `GetPosition` of internal/modules/queue/service/service.go, after Redis has
-- lost the set of a queue.
use queuebuzz.Prelude.{
  ℕ, ◌≡◌, refl, sym, ◌∙◌, List-cases, inl, inr, ◌||◌, none, List, [], ◌∷◌, arith, ◌==◌,
  if◌then◌else◌, any, map, is_empty, is_some, only, index_of-any,
}
use queuebuzz.Net.{Net, pure, Reply, ok, calm}
use queuebuzz.Queue.Domain.{Entry, is_rehydrated}
use queuebuzz.Queue.World.{Backend, World}
use queuebuzz.Queue.Repository.{
  positions_of, with_positions, add_members, rank, get_size, add_to_queue_bulk,
  set_rehydrated_sentinel, has_rehydrated_sentinel,
}
use queuebuzz.Queue.Lookup.{
  of_queue, settle-or_missing, is_found, get_queue, get_queue_entries, refill, rehydrate_queue,
  retry_position, get_position,
}

module _ (B : Backend) where
  add_members-score :
      (q n : ℕ) (es : List Entry) (z : B.sorted.Set)
      → is_some (B.sorted.score n (add_members B q (map (λ e. (e.created_at, e.id)) es) z))
        ≡ (any (λ e. e.id == n) es || is_some (B.sorted.score n z))
  add_members-score q n [] z = refl
  add_members-score q n (e ∷ es) z =
      add_members-score q n es (B.sorted.add e.created_at e.id z)
      ∙ rw (B.sorted.score-add e.created_at e.id n z) (ground arith)

  refill-calm :
      (q : ℕ) (e : Entry) (es : List Entry) (w : World B)
      → refill B q (e ∷ es) (calm w) ≡ (
        ok (map (λ d. d.id) (e ∷ es)),
        calm (
            with_positions B q
              (add_members B q (map (λ d. (d.created_at, d.id)) (e ∷ es)) (positions_of B q w))
              w),
      )
  unfolding refill add_to_queue_bulk get_queue calm
  refill-calm q e es w = rw (settle-or_missing _ _) refl

  abbrev refill_unless_empty : ℕ → List Entry → World B → Reply (List ℕ) × Net (World B)
  refill_unless_empty q es w = (if is_empty es then pure [] else refill B q es) (calm w)

  refilled-members :
      (q j : ℕ) (es : List Entry) (w : World B)
      → B.positions.get q w.positions ≡ none
      → any (λ m. m == j) (B.sorted.range (positions_of B q (refill_unless_empty q es w).1.state))
        ≡ any (λ e. e.id == j) es
  unfolding calm
  refilled-members q j [] w h = rw (h, B.sorted.range-empty) refl
  refilled-members q j (e ∷ es) w h =
      rw
        (
          refill-calm q e es w,
          B.positions.get-put q _ w.positions,
          B.sorted.any-range j _,
          h,
          add_members-score q j (e ∷ es) B.sorted.empty,
          sym (B.sorted.any-range j B.sorted.empty),
          B.sorted.range-empty,
        )
        (ground arith)

  -- After the loss of a queue's set, `rehydrateQueue` puts exactly the queue's entries that wait,
  -- are called or have arrived back into it, if every call is answered.
  pub rehydrate_queue-members :
      (q j : ℕ) (w : World B)
      → B.positions.get q w.positions ≡ none
      → any (λ m. m == j) (B.sorted.range (positions_of B q (rehydrate_queue B q (calm w)).1.state))
        ≡ is_some (only (of_queue q is_rehydrated) (B.entries.find_one j w.entries))
  unfolding rehydrate_queue set_rehydrated_sentinel get_queue_entries calm
  rehydrate_queue-members q j w h =
      refilled-members q j (B.entries.find (of_queue q is_rehydrated) w.entries)
        (record w { sentinels = B.sentinels.put q tt w.sentinels }) h
      ∙ B.entries.any-find j (of_queue q is_rehydrated) w.entries

  rehydrate_queue-calm :
      (q : ℕ) (w : World B)
      → rehydrate_queue B q (calm w) ≡ (
        ok (map (λ e. e.id) (B.entries.find (of_queue q is_rehydrated) w.entries)),
        calm (rehydrate_queue B q (calm w)).1.state,
      )
  unfolding rehydrate_queue set_rehydrated_sentinel get_queue_entries calm
  rehydrate_queue-calm q w =
      elim (List-cases (B.entries.find (of_queue q is_rehydrated) w.entries)) [
        | inl x ↦ rw x refl
        | inr (e, es, x) ↦ rw (x, refill-calm q e es _) refl
      ]

  -- After the loss of a queue's set, if it was not rebuilt of late and every call is answered, an
  -- entry has a position exactly if it belongs to the queue and waits, is called or has arrived: a
  -- guest who is idle has lost the place.
  pub get_position-is_found :
      (q j : ℕ) (w : World B)
      → B.positions.get q w.positions ≡ none
      → B.sentinels.get q w.sentinels ≡ none
      → is_found (get_position B q j (calm w)).0
        ≡ is_some (only (of_queue q is_rehydrated) (B.entries.find_one j w.entries))
  unfolding get_position retry_position rank get_size has_rehydrated_sentinel calm
  get_position-is_found q j w h k =
      rw (h, B.sorted.range-empty, h, B.sorted.range-empty, k, rehydrate_queue-calm q w)
        (index_of-any j _ ∙ rehydrate_queue-members q j w h)
