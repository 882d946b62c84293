-- ===== src/Queue/Repository.antt =====
-- internal/modules/queue/repository/redis.go and internal/modules/customer/repository/redis.go.
-- The time to live that a call sets on a key is no part of the state: a key may expire at any
-- moment, which is a step of the environment.
pub mod JoinCodes
use queuebuzz.Prelude.{
  ℕ, zero, suc, ◌+◌, ◌-◌, ◌/◌, ◌==◌, Bool, true, false, Option, none, some, List, [], ◌∷◌, is_some,
  is_empty, if◌then◌else◌, get_or, index_of, length, take, drop, ltb,
}
use queuebuzz.Net.{
  Net, M, Reply, ok, err, nil_reply, is_nil, rejected, ◌>>=◌, ◌>>◌, pure, fail, request, read,
  write, with_retry,
}
use queuebuzz.Queue.Ticket.{format_ticket}
use queuebuzz.Queue.World.{Backend, World, Call}

module _ (B : Backend) where
  -- A missing key is an empty set.
  abbrev pub positions_of : ℕ → World B → B.sorted.Set
  positions_of q w = get_or (B.positions.get q w.positions) B.sorted.empty

  abbrev pub with_positions : ℕ → B.sorted.Set → World B → World B
  with_positions q z w = record w { positions = B.positions.put q z w.positions }

  abbrev pub add_member : ℕ → ℕ → ℕ → World B → World B
  add_member q s m w = with_positions q (B.sorted.add s m (positions_of q w)) w

  abbrev pub add_members : ℕ → List (ℕ × ℕ) → B.sorted.Set → B.sorted.Set
  add_members q [] z = z
  add_members q ((s, m) ∷ ms) z = add_members q ms (B.sorted.add s m z)

  unfoldable pub add_to_queue : ℕ → ℕ → ℕ → Call B (Unit {0})
  add_to_queue q m s = with_retry (write (add_member q s m))

  unfoldable pub add_to_queue_bulk : ℕ → List (ℕ × ℕ) → Call B (Unit {0})
  add_to_queue_bulk q [] = pure tt
  add_to_queue_bulk q (m ∷ ms) =
      with_retry (write (λ w. with_positions q (add_members q (m ∷ ms) (positions_of q w)) w))

  -- `GetPosition`: `none` is the position -1 of a member that is not there.
  unfoldable pub rank : ℕ → ℕ → Call B (Option ℕ)
  rank q m = with_retry (read (λ w. index_of m (B.sorted.range (positions_of q w))))

  unfoldable pub remove_from_queue : ℕ → ℕ → Call B (Unit {0})
  remove_from_queue q m =
      with_retry (write (λ w. with_positions q (B.sorted.rem m (positions_of q w)) w))

  unfoldable pub get_size : ℕ → Call B ℕ
  get_size q = with_retry (read (λ w. length (B.sorted.range (positions_of q w))))

  unfoldable pub get_queue_entry_ids : ℕ → Call B (List ℕ)
  get_queue_entry_ids q = with_retry (read (λ w. B.sorted.range (positions_of q w)))

  -- `INCR`, of a missing key as of 0.
  unfoldable pub next_ticket : ℕ → Call B (List ℕ)
  next_ticket q = request (λ w.
      let num = suc (get_or (B.counters.get q w.counters) 0) in
      (ok (format_ticket num), record w { counters = B.counters.put q num w.counters }))

  unfoldable pub has_ticket_counter : ℕ → Call B Bool
  has_ticket_counter q = read (λ w. is_some (B.counters.get q w.counters))

  unfoldable pub set_ticket_counter : ℕ → ℕ → Call B (Unit {0})
  set_ticket_counter q num = write (λ w. record w { counters = B.counters.put q num w.counters })

  -- `RepositionEntry`; an empty set takes the clock's seconds.
  abbrev pub reposition_score : ℕ → ℕ → World B → ℕ
  reposition_score q offset w =
      let z = positions_of q w in
      elim (drop offset (B.sorted.range z)) [
        | [] ↦ elim (B.sorted.last_score z) [ none ↦ w.now / 1000 | some s ↦ s + 1 ]
        | m ∷ ms ↦ get_or (B.sorted.score m z) 0 + 1
      ]

  unfoldable pub reposition_entry : ℕ → ℕ → ℕ → Call B (Unit {0})
  reposition_entry q m offset =
      with_retry do s ← read (reposition_score q offset); write (add_member q s m)

  unfoldable pub move_to_back : ℕ → ℕ → Call B (Unit {0})
  move_to_back q m = with_retry (write (λ w. add_member q w.now m w))

  unfoldable pub set_idle_timer : ℕ → ℕ → Call B (Unit {0})
  set_idle_timer q m =
      with_retry (write (λ w. record w { idle_timers = B.timers.put (q, m) tt w.idle_timers }))

  unfoldable pub set_grace_timer : ℕ → ℕ → Call B (Unit {0})
  set_grace_timer q m =
      with_retry (write (λ w. record w { grace_timers = B.timers.put (q, m) tt w.grace_timers }))

  unfoldable pub clear_idle_timer : ℕ → ℕ → Call B (Unit {0})
  clear_idle_timer q m =
      with_retry (write (λ w. record w { idle_timers = B.timers.del (q, m) w.idle_timers }))

  unfoldable pub clear_grace_timer : ℕ → ℕ → Call B (Unit {0})
  clear_grace_timer q m =
      with_retry (write (λ w. record w { grace_timers = B.timers.del (q, m) w.grace_timers }))

  unfoldable pub delete_queue_keys : ℕ → Call B (Unit {0})
  delete_queue_keys q = with_retry (
      write (λ w. record w {
        positions = B.positions.del q w.positions;
        counters = B.counters.del q w.counters;
      }))

  unfoldable pub set_rehydrated_sentinel : ℕ → Call B (Unit {0})
  set_rehydrated_sentinel q = write (λ w. record w { sentinels = B.sentinels.put q tt w.sentinels })

  unfoldable pub has_rehydrated_sentinel : ℕ → Call B Bool
  has_rehydrated_sentinel q = read (λ w. is_some (B.sentinels.get q w.sentinels))

  unfoldable pub release_join_code : ℕ → Call B (Unit {0})
  release_join_code code = write (λ w. record w { join_codes = B.join_codes.del code w.join_codes })

  unfoldable pub resolve_join_code : ℕ → Call B (Option ℕ)
  resolve_join_code code = read (λ w. B.join_codes.get code w.join_codes)

  -- `SET NX`: the answer "no such key" when the key is taken.
  unfoldable pub claim_join_code : ℕ → ℕ → Call B (Unit {0})
  claim_join_code q code = request (λ w.
      if is_some (B.join_codes.get code w.join_codes)
      then (err nil_reply, w)
      else (ok tt, record w { join_codes = B.join_codes.put code q w.join_codes }))

  abbrev pub code_or_next :
      ℕ → Reply (Unit {0}) × Net (World B) → Call B ℕ → Reply ℕ × Net (World B)
  code_or_next code (ok a, n) next = (ok code, n)
  code_or_next code (err e, n) next = if is_nil e then next n else (err e, n)

  -- The loop of `GenerateJoinCode`, over the random codes of the attempts.
  unfoldable pub generate_join_code : ℕ → List ℕ → Call B ℕ
  generate_join_code q [] n = (err (rejected 500), n)
  generate_join_code q (code ∷ codes) n =
      code_or_next code (claim_join_code q code n) (generate_join_code q codes)

  unfoldable pub invalidate_history_summary : ℕ → Call B (Unit {0})
  invalidate_history_summary h = write (λ w. record w { summaries = B.summaries.del h w.summaries })

  -- `KEYS host:{host}:history:*` and `DEL`: of these keys the model has the summary.
  unfoldable pub invalidate_host_history : ℕ → Call B (Unit {0})
  invalidate_host_history h = do
    found ← read (λ w. is_some (B.summaries.get h w.summaries))
    if found then invalidate_history_summary h else pure tt

  unfoldable pub set_user_session : ℕ → ℕ → Call B (Unit {0})
  set_user_session q m =
      with_retry (write (λ w. record w { sessions = B.sessions.put (q, m) tt w.sessions }))

  unfoldable pub user_session_exists : ℕ → ℕ → Call B Bool
  user_session_exists q m = with_retry (read (λ w. is_some (B.sessions.get (q, m) w.sessions)))

  unfoldable pub delete_user_session : ℕ → ℕ → Call B (Unit {0})
  delete_user_session q m =
      with_retry (write (λ w. record w { sessions = B.sessions.del (q, m) w.sessions }))
