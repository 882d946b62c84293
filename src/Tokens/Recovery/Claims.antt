-- ===== src/Tokens/Recovery/Claims.antt =====
-- `GenerateToken` and `ClaimToken` of internal/modules/customer/service/recovery_service.go: a token
-- is used at most once.
use queuebuzz.Prelude.{
  ℕ, ◌≡◌, refl, true, false, none, some, List, ◌∷◌, ◌++◌, is_empty, ◌||◌, Bool-cases, inl, inr,
  Option, Option-cases, arith,
}
use queuebuzz.Net.{is_ok, Fate, Net, Reply, ok, err, calm}
use queuebuzz.Net.Keeps.{Hoare, bind_rule, request_rule}
use queuebuzz.Tokens.Texts.{cut}
use queuebuzz.Tokens.Texts.Cuts.{Lacks, cut-append}
use queuebuzz.Tokens.Texts.Hex.{IsBytes}
use queuebuzz.Tokens.Recovery.{
  Hashes, Redis, Recoveries, signed, open_token, colon, generate_token, take_token, parse_val,
  claim_opened, claim_token,
}
use queuebuzz.Tokens.Recovery.Stateless.{open_token-signed}

module _ (H : Hashes) (R : Redis) (token : List ℕ) where
  -- The token is not stored.
  abbrev Spent : Recoveries R → Type 0
  Spent s = R.tokens.get (H.sha256 token) s.tokens ≡ none

  abbrev Claimed : {A : Type 0} → Reply A → Recoveries R → Type 0
  Claimed (ok a) s = Spent s
  Claimed (err e) s = Unit

  abbrev Refused : {A : Type 0} → Reply A → Recoveries R → Type 0
  Refused (ok a) s = ⊥
  Refused (err e) s = Unit

  take_token-Claimed : Hoare (λ s. Unit) (take_token H R (H.sha256 token)) Claimed
  unfolding take_token
  take_token-Claimed =
      request_rule (λ s. Unit) Claimed _
        (λ s h. elim (Option-cases (R.tokens.get (H.sha256 token) s.tokens)) [
          | inl x ↦ rw x tt
          | inr (v, x) ↦ rw x (R.tokens.get-del (H.sha256 token) s.tokens)
        ])
        (λ s h. (tt, tt))

  take_token-Refused : Hoare Spent (take_token H R (H.sha256 token)) Refused
  unfolding take_token
  take_token-Refused = request_rule Spent Refused _ (λ s x. rw x tt) (λ s x. (tt, tt))

  parse_val-Claimed : (p : Option (List ℕ × List ℕ)) → Hoare Spent (parse_val H R p) Claimed
  parse_val-Claimed none n h = tt
  parse_val-Claimed (some (entry, queue)) n h =
      elim (Bool-cases (is_empty entry || is_empty queue)) [ inl x ↦ rw x tt | inr x ↦ rw x h ]

  claim_opened-Claimed :
      (raw : Option (List ℕ)) → Hoare (λ s. Unit) (claim_opened H R token raw) Claimed
  claim_opened-Claimed none = λ n h. tt
  claim_opened-Claimed (some raw) =
      bind_rule _ Claimed Claimed _ _ take_token-Claimed (λ v. parse_val-Claimed (cut colon v))
        (λ e s h. tt)

  claim_opened-Refused : (raw : Option (List ℕ)) → Hoare Spent (claim_opened H R token raw) Refused
  claim_opened-Refused none = λ n h. tt
  claim_opened-Refused (some raw) =
      bind_rule _ Refused Refused _ _ take_token-Refused (λ v n f. absurd f) (λ e s h. tt)

  Refused-is_ok : {A : Type 0} (r : Reply A) (s : Recoveries R) → Refused r s → is_ok r ≡ false
  Refused-is_ok (ok a) s h = absurd h
  Refused-is_ok (err e) s h = refl

  Claimed-ok :
      {A : Type 0} (r : Reply A) (s : Recoveries R) → Claimed r s → is_ok r ≡ true → Spent s
  Claimed-ok (ok a) s h x = h
  Claimed-ok (err e) s h x = absurd (ground (arith, x))

  -- Whatever the fates of the calls, a token that was claimed is not claimed again.
  pub claim_token-once :
      (n : Net (Recoveries R)) (fates : List Fate)
      → is_ok (claim_token H R token n).0 ≡ true
      → is_ok (claim_token H R token (record (claim_token H R token n).1 { fates = fates })).0
        ≡ false
  unfolding claim_token
  claim_token-once n fates x = Refused-is_ok _ _ (
      claim_opened-Refused (open_token H token) _
        (Claimed-ok _ _ (claim_opened-Claimed (open_token H token) n tt) x))

-- When every call is answered, a token that was made for an entry and a queue is claimed with
-- them, if their identifiers are not empty and that of the entry has no colon.
pub generate_token-claim_token :
    (H : Hashes) (R : Redis) (raw entry queue : List ℕ) (s : Recoveries R)
    → IsBytes raw
    → Lacks colon entry
    → (is_empty entry || is_empty queue) ≡ false
    → let made = generate_token H R (some raw) entry queue (calm s) in
      (made.0 ≡ ok (signed H raw)) × ((claim_token H R (signed H raw) made.1).0 ≡ ok (entry, queue))
unfolding generate_token claim_token take_token calm
generate_token-claim_token H R raw entry queue s bytes lacks full =
    rw
      (
        open_token-signed H raw bytes,
        R.tokens.get-put (H.sha256 (signed H raw)) (entry ++ colon ∷ queue) s.tokens,
        cut-append colon entry queue lacks,
        full,
      )
      (refl, refl)
