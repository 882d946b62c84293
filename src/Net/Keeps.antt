-- ===== src/Net/Keeps.antt =====
-- A logic of chains of calls whatever their fates: what holds of the reply and of the services'
-- state afterwards. Lost requests and lost replies are cases of every rule.
use queuebuzz.Prelude.{ℕ, zero, suc, ◌||◌, Bool-cases, inl, inr, Option, none, some, List, [], ◌∷◌}
use queuebuzz.Net.{
  Fate, answered, request_lost, reply_lost, Error, network, Reply, ok, err, Net, M, ◌>>=◌, ◌>>◌,
  attempt, request, serve, settle, again_unless, is_nil, retry_loop, with_retry, continue, pure,
  fail,
}

module _ {S : Type 0} where
  -- From a state in which `P` holds, a chain ends with a reply and a state in the relation `R`.
  abbrev pub Hoare : {A : Type 0} → (S → Type 0) → M S A → (Reply A → S → Type 0) → Type 0
  Hoare P m R = (n : Net S) → P n.state → R (m n).0 (m n).1.state

  continue_lem :
      {A B : Type 0} (R : Reply A → S → Type 0) (Q : Reply B → S → Type 0) (f : A → M S B)
      → ((a : A) → Hoare (R (ok a)) (f a) Q)
      → ((e : Error) (s : S) → R (err e) s → Q (err e) s)
      → (r : Reply A × Net S) → R r.0 r.1.state
      → Q (continue f r).0 (continue f r).1.state
  continue_lem R Q f k x (ok a, n) h = k a n h
  continue_lem R Q f k x (err e, n) h = x e n.state h

  pub bind_rule :
      {A B : Type 0} (P : S → Type 0) (R : Reply A → S → Type 0) (Q : Reply B → S → Type 0)
      (m : M S A) (f : A → M S B)
      → Hoare P m R
      → ((a : A) → Hoare (R (ok a)) (f a) Q)
      → ((e : Error) (s : S) → R (err e) s → Q (err e) s)
      → Hoare P (m >>= f) Q
  unfolding ◌>>=◌
  bind_rule P R Q m f hm hf x n h = continue_lem R Q f hf x (m n) (hm n h)

  pub then_rule :
      {A B : Type 0} (P : S → Type 0) (R : Reply A → S → Type 0) (Q : Reply B → S → Type 0)
      (m : M S A) (k : M S B)
      → Hoare P m R
      → ((a : A) → Hoare (R (ok a)) k Q)
      → ((e : Error) (s : S) → R (err e) s → Q (err e) s)
      → Hoare P (m >> k) Q
  unfolding ◌>>◌
  then_rule P R Q m k hm hk x = bind_rule P R Q m (λ a. k) hm hk x

  -- What an answered call establishes holds in the other two cases too.
  serve_rule :
      {A : Type 0} (P : S → Type 0) (R : Reply A → S → Type 0) (f : S → Reply A × S)
      → ((s : S) → P s → R (f s).0 (f s).1)
      → ((s : S) → P s → R (err network) s × R (err network) (f s).1)
      → (fates : List Fate) → Hoare P (serve fates f) R
  serve_rule P R f answer lost [] n h = answer n.state h
  serve_rule P R f answer lost (answered ∷ fates) n h = answer n.state h
  serve_rule P R f answer lost (request_lost ∷ fates) n h = (lost n.state h).0
  serve_rule P R f answer lost (reply_lost ∷ fates) n h = (lost n.state h).1

  pub request_rule :
      {A : Type 0} (P : S → Type 0) (R : Reply A → S → Type 0) (f : S → Reply A × S)
      → ((s : S) → P s → R (f s).0 (f s).1)
      → ((s : S) → P s → R (err network) s × R (err network) (f s).1)
      → Hoare P (request f) R
  unfolding request
  request_rule P R f answer lost n h = serve_rule P R f answer lost n.fates n h

  settle_lem :
      {A : Type 0} (R : Reply A → S → Type 0) (Q : Reply (Option A) → S → Type 0)
      → ((a : A) (s : S) → R (ok a) s → Q (ok (some a)) s)
      → ((e : Error) (s : S) → R (err e) s → Q (ok none) s)
      → (r : Reply A × Net S) → R r.0 r.1.state
      → Q (settle r).0 (settle r).1.state
  settle_lem R Q y x (ok a, n) h = y a n.state h
  settle_lem R Q y x (err e, n) h = x e n.state h

  pub attempt_rule :
      {A : Type 0} (P : S → Type 0) (R : Reply A → S → Type 0) (Q : Reply (Option A) → S → Type 0)
      (m : M S A)
      → Hoare P m R
      → ((a : A) (s : S) → R (ok a) s → Q (ok (some a)) s)
      → ((e : Error) (s : S) → R (err e) s → Q (ok none) s)
      → Hoare P (attempt m) Q
  unfolding attempt
  attempt_rule P R Q m hm y x n h = settle_lem R Q y x (m n) (hm n h)

  again_lem :
      {A : Type 0} (P : S → Type 0) (R : Reply A → S → Type 0) (again : M S A)
      → Hoare P again R
      → ((e : Error) (s : S) → R (err e) s → P s)
      → (r : Reply A × Net S) → R r.0 r.1.state
      → R (again_unless r again).0 (again_unless r again).1.state
  unfolding again_unless
  again_lem P R again k x (ok a, n) h = h
  again_lem P R again k x (err e, n) h = elim (Bool-cases (is_nil e || n.ended)) [
    | inl t ↦ rw t h
    | inr t ↦ rw t (k n (x e n.state h))
  ]

  retry_loop_rule :
      {A : Type 0} (P : S → Type 0) (R : Reply A → S → Type 0) (m : M S A) (attempts : ℕ)
      → Hoare P m R
      → ((e : Error) (s : S) → R (err e) s → P s)
      → Hoare P (retry_loop (suc attempts) m) R
  unfolding retry_loop
  retry_loop_rule P R m zero k x n h = k n h
  retry_loop_rule P R m (suc more) k x n h =
      again_lem P R _ (retry_loop_rule P R m more k x) x (m n) (k n h)

  -- A retried call may start again from whatever a failed attempt leaves.
  pub retry_rule :
      {A : Type 0} (P : S → Type 0) (R : Reply A → S → Type 0) (m : M S A)
      → Hoare P m R
      → ((e : Error) (s : S) → R (err e) s → P s)
      → Hoare P (with_retry m) R
  unfolding with_retry
  retry_rule P R m k x = retry_loop_rule P R m 2 k x

module _ {S : Type 0} (P : S → Type 0) where
  -- A chain of calls keeps a predicate of the state, however it ends.
  abbrev pub Keeps : {A : Type 0} → M S A → Type 0
  Keeps m = Hoare P m (λ r s. P s)

  pub Keeps-pure : {A : Type 0} (a : A) → Keeps (pure a)
  Keeps-pure a n h = h

  pub Keeps-fail : (A : Type 0) (e : Error) → Keeps {A = A} (fail e)
  Keeps-fail A e n h = h

  pub Keeps-bind :
      {A B : Type 0} (m : M S A) (f : A → M S B)
      → Keeps m
      → ((a : A) → Keeps (f a))
      → Keeps (m >>= f)
  Keeps-bind m f km kf = bind_rule P (λ r. P) (λ r. P) m f km kf (λ e s h. h)

  pub Keeps-then : {A B : Type 0} (m : M S A) (k : M S B) → Keeps m → Keeps k → Keeps (m >> k)
  Keeps-then m k km kk = then_rule P (λ r. P) (λ r. P) m k km (λ a. kk) (λ e s h. h)

  pub Keeps-request :
      {A : Type 0} (f : S → Reply A × S) → ((s : S) → P s → P (f s).1) → Keeps (request f)
  Keeps-request f k = request_rule P (λ r. P) f k (λ s h. (h, k s h))

  pub Keeps-attempt : {A : Type 0} (m : M S A) → Keeps m → Keeps (attempt m)
  Keeps-attempt m k = attempt_rule P (λ r. P) (λ r. P) m k (λ a s h. h) (λ e s h. h)

  pub Keeps-with_retry : {A : Type 0} (m : M S A) → Keeps m → Keeps (with_retry m)
  Keeps-with_retry m k = retry_rule P (λ r. P) m k (λ e s h. h)

-- The rules by which `search` derives that a chain keeps a predicate.
pub ruleset keeps_rules =
    (Keeps-pure, Keeps-fail, Keeps-bind, Keeps-then, Keeps-request, Keeps-attempt, Keeps-with_retry)
