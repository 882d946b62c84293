-- ===== src/Queue/Lifecycle/Fields.antt =====
-- What the end of a stay, `finishUserSession` of internal/modules/queue/service/service.go, sets in the
-- documents of an entry and of a host, field by field and by the status.
use mathlib.Core.Option
use queuebuzz.Prelude.{
  ℕ, ◌+◌, ◌≡◌, refl, true, false, Option, none, some, if◌then◌else◌, ◌==◌, arith,
}
use queuebuzz.Queue.Domain.{
  Entry, Queue, Host, EntryStatus, waiting, called, idle, arrived, served, left, skipped, is_served,
}

-- The time of the service: that of the end if the guest is served, and unchanged otherwise.
abbrev pub service_time : EntryStatus → ℕ → Option ℕ → Option ℕ
service_time served now before = some now
service_time _ now before = before

-- An entry whose stay ended at a time, field by field.
abbrev pub ended_entry : EntryStatus → ℕ → Entry → Entry
ended_entry s now d = record d {
  status = s;
  finished_at = some now;
  served_at = service_time s now d.served_at;
}

-- The host of a queue that is there, and a host's document after the end of a stay: one guest more
-- was served, if one was.
abbrev pub served_host : Option Queue → Option ℕ
served_host none = none
served_host (some q) = q.host_id

abbrev pub one_guest_more : Host → Host
one_guest_more d = record d { total_served_count = d.total_served_count + 1 }

abbrev pub counted_served : EntryStatus → Option ℕ → ℕ → Option Host → Option Host
counted_served served (some h) i o = if h == i then Option.map one_guest_more o else o
counted_served _ _ i o = o

pub no_host-counted_served :
    (s : EntryStatus) (i : ℕ) (o : Option Host) → counted_served s none i o ≡ o
no_host-counted_served waiting i o = refl
no_host-counted_served called i o = refl
no_host-counted_served idle i o = refl
no_host-counted_served arrived i o = refl
no_host-counted_served served i o = refl
no_host-counted_served left i o = refl
no_host-counted_served skipped i o = refl

pub not_served-counted_served :
    (s : EntryStatus) (h : Option ℕ) (i : ℕ) (o : Option Host)
    → is_served s ≡ false
    → counted_served s h i o ≡ o
not_served-counted_served waiting h i o n = refl
not_served-counted_served called h i o n = refl
not_served-counted_served idle h i o n = refl
not_served-counted_served arrived h i o n = refl
not_served-counted_served served h i o n = absurd (ground (arith, n))
not_served-counted_served left h i o n = refl
not_served-counted_served skipped h i o n = refl

pub is_served-counted_served :
    (s : EntryStatus) (h i : ℕ) (o : Option Host)
    → is_served s ≡ true
    → counted_served s (some h) i o ≡ (if h == i then Option.map one_guest_more o else o)
is_served-counted_served waiting h i o y = absurd (ground (arith, y))
is_served-counted_served called h i o y = absurd (ground (arith, y))
is_served-counted_served idle h i o y = absurd (ground (arith, y))
is_served-counted_served arrived h i o y = absurd (ground (arith, y))
is_served-counted_served served h i o y = refl
is_served-counted_served left h i o y = absurd (ground (arith, y))
is_served-counted_served skipped h i o y = absurd (ground (arith, y))
