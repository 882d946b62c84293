-- ===== src/Queue/Join/Positions.antt =====
-- `CreateEntryForQueue` of internal/modules/queue/service/service.go: where a new guest stands.
use queuebuzz.Prelude.{ℕ, suc, ◌≡◌, refl, ◌∙◌, none, some, length, index_of, index_of-append}
use queuebuzz.Store.{Below}
use queuebuzz.Net.{ok, calm}
use queuebuzz.Queue.Domain.{Entry, Queue}
use queuebuzz.Queue.World.{Backend, World}
use queuebuzz.Queue.Repository.{positions_of, add_member, add_to_queue, rank}
use queuebuzz.Queue.Lookup.{get_position}
use queuebuzz.Queue.Join.{enter_positions}

module _ (B : Backend) where
  add_member-rank :
      (q s m : ℕ) (w : World B)
      → B.sorted.score m (positions_of B q w) ≡ none
      → Below (B.sorted.last_score (positions_of B q w)) s
      → index_of m (B.sorted.range (positions_of B q (add_member B q s m w)))
        ≡ some (length (B.sorted.range (positions_of B q w)))
  add_member-rank q s m w h b =
      rw
        (
          B.positions.get-put q (B.sorted.add s m (positions_of B q w)) w.positions,
          B.sorted.range-add_last s m (positions_of B q w) h b,
        )
        (index_of-append m _ (B.sorted.any-range m (positions_of B q w) ∙ rw h refl))

  -- A guest whose time of creation lies above all scores of the set gets the last position.
  pub enter_positions-last :
      (queue : Queue) (d : Entry) (w : World B)
      → B.sorted.score d.id (positions_of B d.queue_id w) ≡ none
      → Below (B.sorted.last_score (positions_of B d.queue_id w)) d.created_at
      → enter_positions B queue d (calm w) ≡ (
        ok (suc (length (B.sorted.range (positions_of B d.queue_id w)))),
        calm (add_member B d.queue_id d.created_at d.id w),
      )
  unfolding enter_positions add_to_queue get_position rank calm
  enter_positions-last queue d w h b = rw (add_member-rank d.queue_id d.created_at d.id w h b) refl
