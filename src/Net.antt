-- ===== src/Net.antt =====
-- Calls of the database and of Redis, and internal/redis/retry.go. Each call meets the next of a
-- list of fates, which the environment chooses: it is answered, or its request is lost and the
-- service does nothing, or the service does it and the reply is lost; once the list is used up,
-- calls are answered. `ended` says whether the caller's context has ended.
pub mod Keeps
pub mod Retry
pub mod Ends
use queuebuzz.Prelude.{
  ℕ, zero, suc, Bool, true, false, Option, none, some, List, [], ◌∷◌, ◌||◌, if◌then◌else◌,
}

pub data Fate : Type 0 where
  answered request_lost reply_lost : Fate

pub data Error : Type 0 where
  network no_documents duplicate_key nil_reply lock_taken not_found : Error
  rejected : ℕ → Error

pub data Reply {ℓ} (A : Type ℓ) : Type ℓ where
  ok : A → Reply A
  err : Error → Reply A

abbrev pub is_ok : {A : Type 0} → Reply A → Bool
is_ok (ok a) = true
is_ok (err e) = false

pub record Net (S : Type 0) : Type 0 where
  pub state : S
  pub fates : List Fate
  pub ended : Bool

abbrev pub M : Type 0 → Type 0 → Type 0
M S A = Net S → Reply A × Net S

abbrev pub pure : {S A : Type 0} → A → M S A
pure a n = (ok a, n)

abbrev pub fail : {S A : Type 0} → Error → M S A
fail e n = (err e, n)

-- The rest of a chain, after a reply.
abbrev pub continue : {S A B : Type 0} → (A → M S B) → Reply A × Net S → Reply B × Net S
continue f (ok a, n) = f a n
continue f (err e, n) = (err e, n)

infixl 5 ◌>>=◌ ◌>>◌
unfoldable pub ◌>>=◌ : {S A B : Type 0} → M S A → (A → M S B) → M S B
◌>>=◌ m f n = continue f (m n)

unfoldable pub ◌>>◌ : {S A B : Type 0} → M S A → M S B → M S B
m >> k = m >>= λ _. k

abbrev pub settle : {S A : Type 0} → Reply A × Net S → Reply (Option A) × Net S
settle (ok a, n) = (ok (some a), n)
settle (err e, n) = (ok none, n)

-- `_ = call()`, and `if x, err := call(); err == nil`.
unfoldable pub attempt : {S A : Type 0} → M S A → M S (Option A)
attempt m n = settle (m n)

abbrev pub perform : {S A : Type 0} → (S → Reply A × S) → List Fate → Net S → Reply A × Net S
perform f fates n = let (r, s) = f n.state in (r, record n { state = s; fates = fates })

abbrev pub serve : {S A : Type 0} → List Fate → (S → Reply A × S) → M S A
serve [] f n = perform f [] n
serve (answered ∷ fates) f n = perform f fates n
serve (request_lost ∷ fates) f n = (err network, record n { fates = fates })
serve (reply_lost ∷ fates) f n = (err network, (perform f fates n).1)

-- One call of a service.
unfoldable pub request : {S A : Type 0} → (S → Reply A × S) → M S A
request f n = serve n.fates f n

abbrev pub read : {S A : Type 0} → (S → A) → M S A
read f = request (λ s. (ok (f s), s))

abbrev pub write : {S : Type 0} → (S → S) → M S (Unit {0})
write f = request (λ s. (ok tt, f s))

unfoldable pub is_nil : Error → Bool
is_nil nil_reply = true
is_nil _ = false

-- An answer, and the answer "no such key", end the loop; so does the end of the caller's context.
unfoldable pub again_unless : {S A : Type 0} → Reply A × Net S → M S A → Reply A × Net S
again_unless (ok a, n) again = (ok a, n)
again_unless (err e, n) again = if is_nil e || n.ended then (err e, n) else again n

unfoldable pub retry_loop : {S A : Type 0} → ℕ → M S A → M S A
unfolding again_unless
retry_loop zero op n = (err network, n)
retry_loop (suc zero) op n = op n
retry_loop (suc (suc more)) op n = again_unless (op n) (retry_loop (suc more) op)

-- `ExecRetry` and `WithRetry`: three attempts.
unfoldable pub with_retry : {S A : Type 0} → M S A → M S A
unfolding retry_loop
with_retry op = retry_loop 3 op

-- A change of the process's own memory, which meets no fate.
abbrev pub local : {S : Type 0} → (S → S) → M S (Unit {0})
local f n = (ok tt, record n { state = f n.state })

-- The reply of a call as a value, and a value as the reply.
unfoldable pub observe : {S A : Type 0} → M S A → M S (Reply A)
observe m n = (ok (m n).0, (m n).1)

abbrev pub give : {S A : Type 0} → Reply A → M S A
give r n = (r, n)

-- A run in which every call is answered. To compute with it is to compute with the chain.
unfoldable pub calm : {S : Type 0} → S → Net S
unfolding ◌>>=◌ ◌>>◌ attempt observe request with_retry
calm s = record { state = s; fates = []; ended = false }
