-- ===== src/Queue/Frame.antt =====
-- Which calls leave the entries and the clock alone, whatever their fates.
use queuebuzz.Prelude.{
  ◌≡◌, refl, Bool, true, false, none, some, ◌==◌, get_or, ℕ, Option, List, [], ◌∷◌, is_empty,
  if◌then◌else◌,
}
use queuebuzz.Net.{Net, Reply, observe, give, local, pure}
use queuebuzz.Net.Keeps.{Keeps, Keeps-pure, Keeps-bind, keeps_rules, Keeps-attempt}
use queuebuzz.Queue.Domain.{Entry, Queue}
use queuebuzz.Queue.World.{Backend, World, Call}
use queuebuzz.Queue.Repository.{
  rank, get_size, has_rehydrated_sentinel, get_queue_entry_ids, set_idle_timer,
  set_rehydrated_sentinel, add_to_queue_bulk, remove_from_queue,
}
use queuebuzz.Queue.Lookup.{
  rebuild_position, position_if_lost, is_found, retry_position, get_position, get_queue, get_entry,
  get_queue_entries, refill, rehydrate_queue, forget_dashboard,
}

module _ (B : Backend) (P : B.entries.Col → ℕ → Type 0) where
  -- A predicate of the entries and the clock alone.
  abbrev pub On : World B → Type 0
  On w = P w.entries w.now

  pub get_queue_entry_ids-Keeps : (q : ℕ) → Keeps On (get_queue_entry_ids B q)
  unfolding get_queue_entry_ids
  get_queue_entry_ids-Keeps q = search keeps_rules

  pub set_idle_timer-Keeps : (q m : ℕ) → Keeps On (set_idle_timer B q m)
  unfolding set_idle_timer
  set_idle_timer-Keeps q m = search keeps_rules

  pub remove_from_queue-Keeps : (q m : ℕ) → Keeps On (remove_from_queue B q m)
  unfolding remove_from_queue
  remove_from_queue-Keeps q m = search keeps_rules

  pub get_queue-Keeps : (q : ℕ) → Keeps On (get_queue B q)
  unfolding get_queue
  get_queue-Keeps q = search keeps_rules

  pub get_entry-Keeps : (e : ℕ) → Keeps On (get_entry B e)
  unfolding get_entry
  get_entry-Keeps e = search keeps_rules

  pub forget_dashboard-Keeps : (q : Option Queue) → Keeps On (local (forget_dashboard B q))
  forget_dashboard-Keeps none n h = h
  forget_dashboard-Keeps (some q) n h = forget_keeps q.host_public_id
    where
      forget_keeps :
          (h : Option ℕ)
          → On (elim h [
            | none ↦ n.state
            | some i ↦ record (n.state) {
              dashboards = λ j. if i == j then false else n.state.dashboards j;
            }
          ])
      forget_keeps none = h
      forget_keeps (some i) = h

  add_to_queue_bulk-Keeps : (q : ℕ) (ms : List (ℕ × ℕ)) → Keeps On (add_to_queue_bulk B q ms)
  unfolding add_to_queue_bulk
  add_to_queue_bulk-Keeps q [] = search keeps_rules
  add_to_queue_bulk-Keeps q (m ∷ ms) = search keeps_rules

  refill-Keeps : (q : ℕ) (es : List Entry) → Keeps On (refill B q es)
  unfolding refill
  refill-Keeps q es = search (keeps_rules, get_queue-Keeps, add_to_queue_bulk-Keeps)

  pub rehydrate_queue-Keeps : (q : ℕ) → Keeps On (rehydrate_queue B q)
  unfolding rehydrate_queue set_rehydrated_sentinel get_queue_entries
  rehydrate_queue-Keeps q = search (keeps_rules, refill_if)
    where
      refill_if : (es : List Entry) → Keeps On (if is_empty es then pure [] else refill B q es)
      refill_if [] = Keeps-pure On {A = List ℕ} []
      refill_if (e ∷ es) = refill-Keeps q (e ∷ es)

  give-Keeps : (A : Type 0) (r : Reply A) → Keeps On (give r)
  give-Keeps A r n h = h

  observe-Keeps : (A : Type 0) (m : Call B A) → Keeps On m → Keeps On (observe m)
  unfolding observe
  observe-Keeps A m k n h = k n h

  if-Keeps :
      (A : Type 0) (b : Bool) (m k : Call B A)
      → Keeps On m
      → Keeps On k
      → Keeps On (if b then m else k)
  if-Keeps A true m k km kk = km
  if-Keeps A false m k km kk = kk

  rank_unless-Keeps :
      (q e : ℕ) (first : Reply (Option ℕ)) (ids : Option (List ℕ))
      → Keeps On (elim ids [ none ↦ give first | some found ↦ rank B q e ])
  unfolding rank
  rank_unless-Keeps q e first none = give-Keeps _ first
  rank_unless-Keeps q e first (some found) = search keeps_rules

  rebuild_position-Keeps :
      (q e : ℕ) (first : Reply (Option ℕ)) → Keeps On (rebuild_position B q e first)
  rebuild_position-Keeps q e first =
      Keeps-bind On _ _ (Keeps-attempt On _ (rehydrate_queue-Keeps q)) (rank_unless-Keeps q e first)

  position_if_lost-Keeps :
      (q e : ℕ) (first : Reply (Option ℕ)) → Keeps On (position_if_lost B q e first)
  unfolding has_rehydrated_sentinel
  position_if_lost-Keeps q e first = Keeps-bind On _ _ (search keeps_rules) (λ recent.
      if-Keeps _ (get_or recent false) _ _ (give-Keeps _ first) (rebuild_position-Keeps q e first))

  retry_position-Keeps :
      (q e : ℕ) (first : Reply (Option ℕ)) → Keeps On (retry_position B q e first)
  unfolding retry_position get_size
  retry_position-Keeps q e first = Keeps-bind On _ _ (search keeps_rules) (λ size.
      if-Keeps _ (get_or size 0 == 0) _ _ (position_if_lost-Keeps q e first) (give-Keeps _ first))

  get_position-Keeps : (q e : ℕ) → Keeps On (get_position B q e)
  unfolding get_position rank
  get_position-Keeps q e = Keeps-bind On _ _ (observe-Keeps _ _ (search keeps_rules)) (λ first.
      if-Keeps _ (is_found first) _ _ (give-Keeps _ first) (retry_position-Keeps q e first))

-- Whatever the fates of the calls, asking for a position changes no entry.
get_position-entries :
    (B : Backend) (q e : ℕ) (n : Net (World B))
    → (get_position B q e n).1.state.entries ≡ n.state.entries
get_position-entries B q e n = get_position-Keeps B (λ c t. c ≡ n.state.entries) q e n refl
