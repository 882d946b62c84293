-- ===== src/Tokens/Guesses.antt =====
-- `VerifyOTP` of internal/services/otp_service.go: how often a code can be guessed.
use queuebuzz.Prelude.{
  ℕ, suc, ◌+◌, ◌≤◌, ◌≡◌, refl, true, false, ◌⊎◌, inl, inr, none, some, List, [], ◌∷◌, All, length,
  get_or, ltb, if◌then◌else◌, Bool-cases, arith,
}
use queuebuzz.Net.{is_ok, Fate, Reply, ok, err, calm}
use queuebuzz.Net.Keeps.{Hoare, bind_rule, then_rule, request_rule}
use queuebuzz.Tokens.Otp.{
  generate_otp, generate_and_store_otp, Bcrypt, Redis, Codes, max_attempts, count_attempt, get_hash,
  delete_otp, compare_code, refuse, verify_otp,
}

abbrev IsErr : {A : Type 0} → Reply A → Type 0
IsErr (ok a) = ⊥
IsErr (err e) = Unit

IsErr-is_ok : {A : Type 0} (r : Reply A) → IsErr r → is_ok r ≡ false
IsErr-is_ok (ok a) h = absurd h
IsErr-is_ok (err e) h = refl

module _ (C : Bcrypt) (R : Redis C) (phone : ℕ) where
  -- The state after answered guesses.
  unfoldable pub guess_all : List (List ℕ) → Codes C R → Codes C R
  guess_all [] s = s
  guess_all (g ∷ gs) s = guess_all gs (verify_otp C R phone g (calm s)).1.state

  -- No code is stored, or at least `k` attempts are counted.
  abbrev pub Spent : ℕ → Codes C R → Type 0
  Spent k s =
      (R.hashes.get phone s.hashes ≡ none)
      ⊎ ((j : ℕ) × (R.attempts.get phone s.attempts ≡ some j) × (k ≤ j))

  -- The code with the hash `h`, or no code, is stored.
  abbrev pub Holds : C.Hash → Codes C R → Type 0
  Holds h s = (R.hashes.get phone s.hashes ≡ none) ⊎ (R.hashes.get phone s.hashes ≡ some h)

  no_hash :
      (h : C.Hash) (g : List ℕ) (k : ℕ) (s : Codes C R)
      → R.hashes.get phone s.hashes ≡ none
      → Holds h (verify_otp C R phone g (calm s)).1.state
        × Spent (suc k) (verify_otp C R phone g (calm s)).1.state
  unfolding verify_otp count_attempt get_hash delete_otp calm
  no_hash h g k s x =
      elim (Bool-cases (ltb max_attempts (suc (get_or (R.attempts.get phone s.attempts) 0)))) [
        | inl y ↦
            rw y (inl (R.hashes.get-del phone s.hashes), inl (R.hashes.get-del phone s.hashes))
        | inr y ↦ rw (y, x) (inl x, inl x)
      ]

  wrong_guess :
      (h : C.Hash) (g : List ℕ) (k : ℕ) (s : Codes C R)
      → C.matches h g ≡ false
      → Holds h s
      → Spent k s
      → Holds h (verify_otp C R phone g (calm s)).1.state
        × Spent (suc k) (verify_otp C R phone g (calm s)).1.state
  unfolding verify_otp count_attempt get_hash delete_otp calm
  wrong_guess h g k s wrong (inl x) spent = no_hash h g k s x
  wrong_guess h g k s wrong (inr x) (inl y) = no_hash h g k s y
  wrong_guess h g k s wrong (inr x) (inr (j, counted, le)) =
      elim (Bool-cases (ltb max_attempts (suc j))) [
        | inl y ↦
            rw (counted, y)
              (inl (R.hashes.get-del phone s.hashes), inl (R.hashes.get-del phone s.hashes))
        | inr y ↦
            rw (counted, y, x, wrong)
              (inr x, inr (suc j, R.attempts.get-put phone (suc j) s.attempts, omega (arith, le)))
      ]

  Spent-le : (k j : ℕ) (s : Codes C R) → j ≤ k → Spent k s → Spent j s
  Spent-le k j s le (inl x) = inl x
  Spent-le k j s le (inr (i, counted, lei)) = inr (i, counted, omega (arith, le, lei))

  guess_all-Spent :
      (h : C.Hash) (gs : List (List ℕ)) (k : ℕ) (s : Codes C R)
      → All (λ g. C.matches h g ≡ false) gs
      → Holds h s
      → Spent k s
      → Spent (length gs + k) (guess_all gs s)
  unfolding guess_all
  guess_all-Spent h [] k s wrong holds spent = Spent-le k (0 + k) s (omega arith) spent
  guess_all-Spent h (g ∷ gs) k s (w, wrong) holds spent =
      let (held, counted) = wrong_guess h g k s w holds spent in
      Spent-le (length gs + suc k) (suc (length gs) + k) _ (omega arith)
        (guess_all-Spent h gs (suc k) _ wrong held counted)

  -- After so many attempts, counting one more finds too many, or there is no code.
  abbrev Counted : Reply ℕ → Codes C R → Type 0
  Counted (ok num) s = (R.hashes.get phone s.hashes ≡ none) ⊎ (ltb max_attempts num ≡ true)
  Counted (err e) s = Unit

  count-Counted : Hoare (Spent max_attempts) (count_attempt C R phone) Counted
  unfolding count_attempt
  count-Counted = request_rule (Spent max_attempts) Counted _ counted (λ s h. (tt, tt))
    where
      counted :
          (s : Codes C R)
          → Spent max_attempts s
          → (R.hashes.get phone s.hashes ≡ none)
            ⊎ (ltb max_attempts (suc (get_or (R.attempts.get phone s.attempts) 0)) ≡ true)
      counted s (inl x) = inl x
      counted s (inr (j, c, le)) = inr (rw c (ground arith))

  abbrev Fails : {A : Type 0} → Reply A → Codes C R → Type 0
  Fails r s = IsErr r

  refuse-Fails : (P : Codes C R → Type 0) → Hoare P (refuse C R phone) Fails
  refuse-Fails P = then_rule P (λ r s. Unit) Fails _ _ (λ n h. tt) (λ a n h. tt) (λ e s h. tt)

  compare-Fails :
      (code : List ℕ)
      → Hoare (λ s. R.hashes.get phone s.hashes ≡ none) (compare_code C R phone code) Fails
  unfolding get_hash
  compare-Fails code =
      bind_rule _ Fails Fails _ _ (request_rule _ Fails _ (λ s x. rw x tt) (λ s x. (tt, tt)))
        (λ h n f. absurd f) (λ e s h. tt)

  -- After so many attempts every code is refused, whatever the fates of the calls.
  verify-Fails : (code : List ℕ) → Hoare (Spent max_attempts) (verify_otp C R phone code) Fails
  unfolding verify_otp
  verify-Fails code = bind_rule _ Counted Fails _ _ count-Counted checked (λ e s h. tt)
    where
      checked :
          (num : ℕ)
          → Hoare
              (Counted (ok num))
              (if ltb max_attempts num then refuse C R phone else compare_code C R phone code)
              Fails
      checked num n (inl x) = elim (Bool-cases (ltb max_attempts num)) [
        | inl y ↦ rw y (refuse-Fails (λ s. Unit) n tt)
        | inr y ↦ rw y (compare-Fails code n x)
      ]
      checked num n (inr y) = rw y (refuse-Fails (λ s. Unit) n tt)

  -- From a new code, after five or more answered guesses that are wrong, every code is refused,
  -- whatever the fates of the calls.
  pub verify_otp-guessed :
      (h : C.Hash) (gs : List (List ℕ)) (s : Codes C R) (code : List ℕ) (fates : List Fate)
      → R.hashes.get phone s.hashes ≡ some h
      → R.attempts.get phone s.attempts ≡ some 0
      → All (λ g. C.matches h g ≡ false) gs
      → max_attempts ≤ length gs
      → is_ok (verify_otp C R phone code (record (calm (guess_all gs s)) { fates = fates })).0
        ≡ false
  unfolding calm
  verify_otp-guessed h gs s code fates stored new wrong many = IsErr-is_ok _ (
      verify-Fails code (record (calm (guess_all gs s)) { fates = fates })
        (Spent-le (length gs + 0) max_attempts _ (omega (arith, many))
          (guess_all-Spent h gs 0 s wrong (inr stored) (inr (0, new, omega arith)))))

  -- When every call is answered, a code that was sent is accepted once and then refused.
  verify_otp-once :
      (salt : ℕ) (draws : List ℕ) (s : Codes C R)
      → let sent = generate_and_store_otp C R phone salt draws (calm s) in
        let first = verify_otp C R phone (generate_otp draws) sent.1 in
        (sent.0 ≡ ok (generate_otp draws))
        × (first.0 ≡ ok tt)
        × (is_ok (verify_otp C R phone (generate_otp draws) first.1).0 ≡ false)
  unfolding generate_and_store_otp verify_otp count_attempt get_hash delete_otp calm
  verify_otp-once salt draws s =
      rw
        (
          R.attempts.get-put phone 0 s.attempts,
          R.hashes.get-put phone (C.generate salt (generate_otp draws)) s.hashes,
          C.matches-generate salt (generate_otp draws),
        )
        (refl, refl, rw (R.attempts.get-del phone _, R.hashes.get-del phone _) refl)
