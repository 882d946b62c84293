-- ===== src/Tokens/Otp.antt =====
-- internal/services/otp_service.go: one-time codes. A phone number is an opaque number and a code its
-- bytes; the random digits are an argument. The hash of a code is that of the library bcrypt. The
-- texts of errors are left out.
use queuebuzz.Prelude.{
  ℕ, suc, ◌+◌, ◌≡◌, Bool, true, none, some, List, map, get_or, ltb, if◌then◌else◌,
}
use queuebuzz.Net.{
  M, ok, err, nil_reply, rejected, ◌>>=◌, ◌>>◌, pure, fail, request, write, attempt,
}
use queuebuzz.Store.{KeySpace}

-- `GenerateFromPassword`, with its random salt, and `CompareHashAndPassword`
pub record Bcrypt : Type 1 where
  pub Hash : Type 0
  pub generate : ℕ → List ℕ → Hash
  pub matches : Hash → List ℕ → Bool
  pub matches-generate : (salt : ℕ) (code : List ℕ) → matches (generate salt code) code ≡ true

pub record Redis (C : Bcrypt) : Type 1 where
  -- `otp:{phone}`
  pub hashes : KeySpace ℕ C.Hash
  -- `otp_attempts:{phone}`
  pub attempts : KeySpace ℕ ℕ

pub record Codes (C : Bcrypt) (R : Redis C) : Type 0 where
  pub hashes : R.hashes.Keys
  pub attempts : R.attempts.Keys

abbrev pub max_attempts : ℕ
max_attempts = 5

unfoldable pub generate_otp : List ℕ → List ℕ
generate_otp draws = map (λ n. b'0' + n) draws

module _ (C : Bcrypt) (R : Redis C) where
  -- The pipeline of the two `SET`s is one call.
  unfoldable pub generate_and_store_otp : ℕ → ℕ → List ℕ → M (Codes C R) (List ℕ)
  generate_and_store_otp phone salt draws = do
    write (λ s. record s {
      hashes = R.hashes.put phone (C.generate salt (generate_otp draws)) s.hashes;
      attempts = R.attempts.put phone 0 s.attempts;
    })
    pure (generate_otp draws)

  -- `INCR`, of a missing key as of 0
  unfoldable pub count_attempt : ℕ → M (Codes C R) ℕ
  count_attempt phone = request (λ s.
      let num = suc (get_or (R.attempts.get phone s.attempts) 0) in
      (ok num, record s { attempts = R.attempts.put phone num s.attempts }))

  unfoldable pub get_hash : ℕ → M (Codes C R) C.Hash
  get_hash phone =
      request
        (λ s. elim (R.hashes.get phone s.hashes) [ none ↦ (err nil_reply, s) | some h ↦ (ok h, s) ])

  unfoldable pub delete_otp : ℕ → M (Codes C R) (Unit {0})
  delete_otp phone = write (λ s. record s {
    hashes = R.hashes.del phone s.hashes;
    attempts = R.attempts.del phone s.attempts;
  })

  abbrev pub accept : ℕ → Bool → M (Codes C R) (Unit {0})
  accept phone matched =
      if matched then attempt (delete_otp phone) >> pure tt else fail (rejected 500)

  abbrev pub compare_code : ℕ → List ℕ → M (Codes C R) (Unit {0})
  compare_code phone code = do h ← get_hash phone; accept phone (C.matches h code)

  abbrev pub refuse : ℕ → M (Codes C R) (Unit {0})
  refuse phone = do attempt (delete_otp phone); fail (rejected 500)

  unfoldable pub verify_otp : ℕ → List ℕ → M (Codes C R) (Unit {0})
  verify_otp phone code = do
    num ← count_attempt phone
    if ltb max_attempts num then refuse phone else compare_code phone code
