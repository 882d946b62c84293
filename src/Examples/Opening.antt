-- ===== src/Examples/Opening.antt =====
-- The theorems on creating and deleting queues at a small store.
use queuebuzz.Prelude.{ℕ, ◌≡◌, refl, none, some, false, List, [], ◌∷◌, get_or}
use queuebuzz.Net.{calm, ok}
use queuebuzz.Queue.Slug.{is_valid_slug, normal_slug, is_reserved_slug}
use queuebuzz.Queue.Opening.{Params, new_queue, create_queue, delete_queue}
use queuebuzz.Queue.Opening.Creation.{Opened, create_queue-Opened}
use queuebuzz.Queue.Opening.Deletion.{Deleted, delete_queue-Deleted}
use queuebuzz.Examples.World.{backend, world, cafe}

-- " Bar1 "
abbrev bar : Params
bar = record {
  host_id = some 5;
  host_public_id = some 6;
  name = "Bar";
  slug = 32 ∷ b'B' ∷ b'a' ∷ b'r' ∷ b'1' ∷ 32 ∷ [];
  avg_service_mins = 0;
  manual_positioning = false;
}

abbrev with_bar : backend.queues.Col
with_bar =
    get_or (backend.queues.insert_one (new_queue bar none 8 200 77) world.queues) world.queues

-- The first code is the cafe's.
create_queue-Opened_example :
    ((create_queue backend bar none 8 (1234 ∷ 77 ∷ []) (calm world)).0
      ≡ ok (new_queue bar none 8 200 77))
    × Opened backend bar
        (new_queue bar none 8 200 77)
        8
        77
        world
        (create_queue backend bar none 8 (1234 ∷ 77 ∷ []) (calm world)).1.state
unfolding is_valid_slug normal_slug is_reserved_slug
create_queue-Opened_example =
    create_queue-Opened backend bar none 8 77 (1234 ∷ 77 ∷ []) with_bar world refl refl refl refl

delete_queue-Deleted_example :
    ((delete_queue backend 5 7 (calm world)).0 ≡ ok tt)
    × Deleted backend 5 7 cafe world (delete_queue backend 5 7 (calm world)).1.state
delete_queue-Deleted_example = delete_queue-Deleted backend 5 7 cafe world refl

abbrev dashed : List ℕ
dashed = b'a' ∷ b'-' ∷ b'-' ∷ []
