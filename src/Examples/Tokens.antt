-- ===== src/Examples/Tokens.antt =====
-- The theorems on codes at a small store, with the code itself for its hash.
use queuebuzz.Prelude.{
  ℕ, ◌≡◌, ◌≤◌, refl, false, none, some, List, [], ◌∷◌, ◌++◌, length, same_text, same_text_self,
  arith,
}
use native.Mathlib.Decide.{ℕ_discrete}
use mathlib.Core.List.{List-discrete}
use queuebuzz.Store.Concrete.{key_space, collection}
use queuebuzz.Net.{is_ok, answered, request_lost, reply_lost, calm}
use queuebuzz.Tokens.Otp.{Bcrypt, Redis, Codes, generate_otp, generate_and_store_otp, verify_otp}
use queuebuzz.Tokens.Recovery.{
  Hashes, Recipient, Recoveries, signed, generate_stateless_token, verify_stateless_token,
  claim_token,
}
use queuebuzz.Tokens.Recovery as Recovery
use queuebuzz.Tokens.Recovery.Stateless.{verify_stateless_token-generate_stateless_token}
use queuebuzz.Tokens.Recovery.Claims.{claim_token-once}
use queuebuzz.Tokens.Recovery.Dispatch.{dispatch_all, dispatch_recovery_email-once}
use queuebuzz.Tokens.Guesses.{guess_all, verify_otp-guessed}

abbrev plain : Bcrypt
plain = record {
  Hash = List ℕ;
  generate = λ salt code. code;
  matches = same_text;
  matches-generate = λ salt code. same_text_self code;
}

abbrev redis : Redis plain
redis = record { hashes = key_space ℕ_discrete; attempts = key_space ℕ_discrete }

abbrev draws : List ℕ
draws = 4 ∷ 0 ∷ 7 ∷ 1 ∷ []

abbrev empty : Codes plain redis
empty = record { hashes = λ k. none; attempts = λ k. none }

abbrev sent : Codes plain redis
sent = (generate_and_store_otp plain redis 9 33 draws (calm empty)).1.state

abbrev guess : List ℕ
guess = generate_otp (1 ∷ 1 ∷ 1 ∷ 1 ∷ [])

abbrev guesses : List (List ℕ)
guesses = guess ∷ [] ∷ guess ∷ generate_otp (4 ∷ 0 ∷ 7 ∷ []) ∷ guess ∷ []

verify_otp-guessed_example :
    is_ok
      (verify_otp plain redis 9
        (generate_otp draws)
        (record (calm (guess_all plain redis 9 guesses sent)) {
          fates = answered ∷ reply_lost ∷ [];
        })).0
    ≡ false
unfolding generate_otp generate_and_store_otp calm ℕ_discrete
verify_otp-guessed_example =
    verify_otp-guessed plain redis 9 (generate_otp draws) guesses sent (generate_otp draws)
      (answered ∷ reply_lost ∷ []) refl refl (refl, (refl, (refl, (refl, (refl, tt)))))
      (omega arith)

-- The hashes of the empty key: the last byte, and the text itself.
abbrev hashes : Hashes
hashes = record { hmac = λ raw. 7 ∷ 200 ∷ []; sha256 = λ text. text }

abbrev entry : List ℕ
entry = b'e' ∷ b'1' ∷ []

abbrev queue : List ℕ
queue = b'q' ∷ b'2' ∷ []

verify_stateless_token-generate_stateless_token_example :
    verify_stateless_token hashes 1500 (generate_stateless_token hashes 1000 entry queue)
    ≡ some (entry, queue)
verify_stateless_token-generate_stateless_token_example =
    verify_stateless_token-generate_stateless_token hashes 1000 1500 entry queue (refl, (refl, tt))
      (refl, (refl, tt)) (omega arith, (omega arith, tt)) (omega arith, (omega arith, tt))
      (omega arith)

abbrev store : Recovery.Redis
store = record {
  tokens = key_space (List-discrete ℕ_discrete);
  entries = collection {D = Recipient} (λ e. e.id);
}

abbrev raw : List ℕ
raw = 1 ∷ 2 ∷ []

abbrev recoveries : Recoveries store
recoveries = record {
  tokens = λ k. some (entry ++ b':' ∷ queue);
  entries = record { keys = 3 ∷ []; doc = λ i. record { id = 3; recovery_email_sent_at = none } };
  mails = [];
  now = 50;
}

claim_token-once_example :
    is_ok
      (claim_token hashes store
        (signed hashes raw)
        (record (claim_token hashes store (signed hashes raw) (calm recoveries)).1 {
          fates = reply_lost ∷ [];
        })).0
    ≡ false
unfolding claim_token calm Recovery.take_token
claim_token-once_example =
    claim_token-once hashes store (signed hashes raw) (calm recoveries) (reply_lost ∷ []) refl

dispatch_recovery_email-once_example :
    length
      (dispatch_all hashes store 3 entry queue
        (record { bytes = some raw; fates = answered ∷ request_lost ∷ [] }
          ∷ record { bytes = some raw; fates = [] }
          ∷ record { bytes = some raw; fates = answered ∷ reply_lost ∷ [] }
          ∷ [])
        recoveries).mails
    ≤ 1
dispatch_recovery_email-once_example =
    dispatch_recovery_email-once hashes store 3 entry queue
      (record { bytes = some raw; fates = answered ∷ request_lost ∷ [] }
        ∷ record { bytes = some raw; fates = [] }
        ∷ record { bytes = some raw; fates = answered ∷ reply_lost ∷ [] }
        ∷ [])
      recoveries
