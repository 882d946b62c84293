-- ===== src/Examples/Guest.antt =====
-- The customer module's theorems at a small store.
use queuebuzz.Prelude.{ℕ, ◌≡◌, refl, none, some, List, [], ◌∷◌}
use queuebuzz.Net.{err, rejected, calm}
use queuebuzz.Queue.Domain.{Entry, waiting, called}
use queuebuzz.Queue.World.{World}
use queuebuzz.Queue.Guest.{refusal, contact_of, join_queue}
use queuebuzz.Queue.Guest.Duplicates.{join_queue-duplicate}
use queuebuzz.Examples.World.{guest, cafe, backend, world}

abbrev address : List ℕ
address = b'a' ∷ b'@' ∷ b'b' ∷ []

abbrev known : Entry
known = record (guest waiting 2) { email = some address }

abbrev applicant : Entry
applicant = record (guest called 9) { email = some address }

abbrev with_known : World backend
with_known = record world {
  entries = record { keys = 2 ∷ []; doc = λ i. known };
  sessions = λ k. some tt;
}

abbrev locked_world : World backend
locked_world = record with_known { locks = λ k. some 77 }

cafe-refusal : refusal cafe 200 ≡ none
unfolding refusal
cafe-refusal = refl

applicant-contact_of : contact_of applicant ≡ some address
unfolding contact_of
applicant-contact_of = refl

join_queue-duplicate_example :
    ((join_queue backend (record { queue = some cafe; entry = applicant }) 5 [] (calm with_known)).0
      ≡ err (rejected 429))
    × ((join_queue backend
          (record { queue = some cafe; entry = applicant })
          5
          []
          (calm with_known)).1.state.entries
        ≡ with_known.entries)
    × (backend.locks.get
          (7, address)
          (join_queue backend
            (record { queue = some cafe; entry = applicant })
            5
            []
            (calm with_known)).1.state.locks
        ≡ none)
join_queue-duplicate_example =
    join_queue-duplicate backend cafe applicant address 5 2 known [] with_known cafe-refusal refl
      refl refl refl refl
