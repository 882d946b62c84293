-- ===== src/Queue/Repository/JoinCodes.antt =====
-- `GenerateJoinCode` of internal/modules/queue/repository/redis.go: which code a queue gets.
use queuebuzz.Prelude.{
  ℕ, ◌≡◌, refl, Bool-cases, inl, inr, Option, none, some, List, [], ◌∷◌, is_some, if◌then◌else◌,
}
use queuebuzz.Net.{Reply, Net, ok, err, rejected, is_nil, calm}
use queuebuzz.Queue.World.{Backend, World}
use queuebuzz.Queue.Repository.{claim_join_code, generate_join_code}

module _ (B : Backend) where
  -- The first code that no queue has.
  abbrev pub first_free : List ℕ → World B → Option ℕ
  first_free [] w = none
  first_free (c ∷ cs) w =
      if is_some (B.join_codes.get c w.join_codes) then first_free cs w else some c

  abbrev pub claimed : ℕ → Option ℕ → World B → Reply ℕ × Net (World B)
  claimed q none w = (err (rejected 500), calm w)
  claimed q (some c) w = (ok c, calm (record w { join_codes = B.join_codes.put c q w.join_codes }))

  -- When every call is answered, a queue gets the first of the random codes that no queue has, and
  -- no other code changes its queue; if all of them are taken, the result is an error and nothing
  -- changes.
  pub generate_join_code-claimed :
      (q : ℕ) (codes : List ℕ) (w : World B)
      → generate_join_code B q codes (calm w) ≡ claimed q (first_free codes w) w
  unfolding generate_join_code claim_join_code is_nil calm
  generate_join_code-claimed q [] w = refl
  generate_join_code-claimed q (c ∷ cs) w =
      elim (Bool-cases (is_some (B.join_codes.get c w.join_codes))) [
        | inl x ↦ rw x (generate_join_code-claimed q cs w)
        | inr x ↦ rw x refl
      ]
