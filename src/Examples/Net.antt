-- ===== src/Examples/Net.antt =====
-- The retry loop at a small state.
use queuebuzz.Prelude.{ℕ, ◌≡◌, refl, false, [], ◌∷◌}
use queuebuzz.Net.{answered, request_lost, reply_lost, ok, write, with_retry}
use queuebuzz.Net.Retry.{with_retry-write}

with_retry-write_example :
    with_retry {S = ℕ}
      (write (λ n. 4))
      (record { state = 0; fates = reply_lost ∷ request_lost ∷ answered ∷ []; ended = false })
    ≡ (ok tt, record { state = 4; fates = []; ended = false })
with_retry-write_example = with_retry-write (λ n. 4) 0 reply_lost request_lost [] refl
