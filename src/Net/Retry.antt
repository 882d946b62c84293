-- ===== src/Net/Retry.antt =====
-- internal/redis/retry.go: what the three attempts make up for.
use queuebuzz.Prelude.{◌≡◌, refl, false, List, ◌∷◌}
use queuebuzz.Net.{Fate, answered, request_lost, reply_lost, ok, write, request, is_nil, with_retry}

-- The fates that are left: an answer ends the loop.
abbrev pub fates_left : Fate → Fate → List Fate → List Fate
fates_left answered b fates = b ∷ answered ∷ fates
fates_left _ answered fates = answered ∷ fates
fates_left _ _ fates = fates

-- If the third attempt is answered and the caller's context has not ended, a change that is no
-- further change when it is made again succeeds and is made, whatever becomes of the first two
-- attempts.
pub with_retry-write :
    {S : Type 0} (f : S → S) (s : S) (a b : Fate) (fates : List Fate)
    → f (f s) ≡ f s
    → with_retry (write f) (record { state = s; fates = a ∷ b ∷ answered ∷ fates; ended = false })
      ≡ (ok tt, record { state = f s; fates = fates_left a b fates; ended = false })
unfolding with_retry request is_nil
with_retry-write f s answered b fates h = refl
with_retry-write f s request_lost answered fates h = refl
with_retry-write f s request_lost request_lost fates h = refl
with_retry-write f s request_lost reply_lost fates h = rw h refl
with_retry-write f s reply_lost answered fates h = rw h refl
with_retry-write f s reply_lost request_lost fates h = rw h refl
with_retry-write f s reply_lost reply_lost fates h = rw (h, h) refl
