-- ===== src/Examples/Accounts.antt =====
-- The theorems on locks, limits and masks at small inputs.
use queuebuzz.Prelude.{ℕ, ◌≡◌, refl, false, some, List, [], ◌∷◌, inr, arith}
use native.Mathlib.Decide.{ℕ_discrete}
use queuebuzz.Store.Concrete.{key_space}
use queuebuzz.Net.{calm}
use queuebuzz.Lock.{Event, acquires, releases, acquire, run, run-held}
use queuebuzz.Billing.{decrement_monthly_queue_count_bulk}
use queuebuzz.Billing.Deletions.{decrement_each, decrement_bulk-each}
use queuebuzz.Examples.World.{owner, backend, world}

-- Another owner tries to take and to release the lock.
abbrev others : List (Event ℕ)
others = acquires 7 2 ∷ releases 7 2 ∷ acquires 8 2 ∷ []

run-held_example :
    (run (key_space ℕ_discrete) others (λ k. some 1) 7 ≡ some 1)
    × (acquire (key_space ℕ_discrete) 7 3 (run (key_space ℕ_discrete) others (λ k. some 1))
        ≡ (false, run (key_space ℕ_discrete) others (λ k. some 1)))
run-held_example =
    run-held (key_space ℕ_discrete) 7 1 3 others (λ k. some 1) refl
      (tt, (inr (λ e. absurd (omega (arith, e))), (tt, tt)))

decrement_bulk-each_example :
    backend.hosts.find_one 5
      (decrement_monthly_queue_count_bulk backend
        (some 5)
        (90 ∷ 80 ∷ [])
        (calm world)).1.state.hosts
    ≡ backend.hosts.find_one 5 (decrement_each backend 5 (90 ∷ 80 ∷ []) (calm world)).1.state.hosts
decrement_bulk-each_example = decrement_bulk-each backend 5 (90 ∷ 80 ∷ []) owner world refl

abbrev adam : List ℕ
adam = b'a' ∷ b'd' ∷ b'a' ∷ b'm' ∷ []

abbrev adele : List ℕ
adele = b'a' ∷ b'd' ∷ b'e' ∷ b'l' ∷ b'e' ∷ []

abbrev home : List ℕ
home = b'x' ∷ b'.' ∷ b'y' ∷ []
