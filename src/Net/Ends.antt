-- ===== src/Net/Ends.antt =====
-- A logic of chains of calls that are all answered: how a chain ends, and in which state.
use queuebuzz.Prelude.{◌≡◌, refl, ap, ◌∙◌, Option, none, some, Bool, true, false, if◌then◌else◌}
use queuebuzz.Net.{
  Error, Reply, ok, err, Net, M, ◌>>=◌, ◌>>◌, attempt, observe, request, settle, continue, pure,
  local, calm,
}

module _ {S : Type 0} where
  -- A run that meets no more fates, and whose reply and last state are in the relation `R`.
  abbrev pub Outcome : {A : Type 0} → (Reply A → S → Type 0) → Reply A × Net S → Type 0
  Outcome {A} R x = (r : Reply A) × (t : S) × (x ≡ (r, calm t)) × R r t

  abbrev pub Ends : {A : Type 0} → (S → Type 0) → M S A → (Reply A → S → Type 0) → Type 0
  Ends P m R = (s : S) → P s → Outcome R (m (calm s))

  pub if-Outcome :
      {A : Type 0} (R : Reply A → S → Type 0) (b : Bool) (x y : Reply A × Net S)
      → Outcome R x
      → Outcome R y
      → Outcome R (if b then x else y)
  if-Outcome R true x y h k = h
  if-Outcome R false x y h k = k

  -- The chain has a result.
  abbrev pub Succeeds : {A : Type 0} → (A → S → Type 0) → Reply A → S → Type 0
  Succeeds Q (ok a) s = Q a s
  Succeeds Q (err e) s = ⊥

  pub pure-ends :
      {A : Type 0} (P : S → Type 0) (R : Reply A → S → Type 0) (a : A)
      → ((s : S) → P s → R (ok a) s)
      → Ends P (pure a) R
  pure-ends P R a h s p = (ok a, s, refl, h s p)

  pub request-ends :
      {A : Type 0} (P : S → Type 0) (R : Reply A → S → Type 0) (f : S → Reply A × S)
      → ((s : S) → P s → R (f s).0 (f s).1)
      → Ends P (request f) R
  unfolding request calm
  request-ends P R f h s p = ((f s).0, (f s).1, refl, h s p)

  pub local-ends :
      (P : S → Type 0) (R : Reply (Unit {0}) → S → Type 0) (f : S → S)
      → ((s : S) → P s → R (ok tt) (f s))
      → Ends P (local f) R
  unfolding calm
  local-ends P R f h s p = (ok tt, f s, refl, h s p)

  pub bind-ends :
      {A B : Type 0} (P : S → Type 0) (R : Reply A → S → Type 0) (Q : Reply B → S → Type 0)
      (m : M S A) (f : A → M S B)
      → Ends P m R
      → ((a : A) → Ends (R (ok a)) (f a) Q)
      → ((e : Error) (s : S) → R (err e) s → Q (err e) s)
      → Ends P (m >>= f) Q
  unfolding ◌>>=◌
  bind-ends {A} {B} P R Q m f hm hf x s p = let (r, t, run, q) = hm s p in after r t run q
    where
      after :
          (r : Reply A) (t : S)
          → m (calm s) ≡ (r, calm t)
          → R r t
          → (z : Reply B) × (u : S) × ((m >>= f) (calm s) ≡ (z, calm u)) × Q z u
      after (ok a) t run q = let (z, u, rest, h) = hf a t q in (z, u, ap (continue f) run ∙ rest, h)
      after (err e) t run q = (err e, t, ap (continue f) run, x e t q)

  pub then-ends :
      {A B : Type 0} (P : S → Type 0) (R : Reply A → S → Type 0) (Q : Reply B → S → Type 0)
      (m : M S A) (k : M S B)
      → Ends P m R
      → ((a : A) → Ends (R (ok a)) k Q)
      → ((e : Error) (s : S) → R (err e) s → Q (err e) s)
      → Ends P (m >> k) Q
  unfolding ◌>>◌
  then-ends P R Q m k hm hk x = bind-ends P R Q m (λ a. k) hm hk x

  pub attempt-ends :
      {A : Type 0} (P : S → Type 0) (Q : S → Type 0) (m : M S A)
      → Ends P m (λ r t. Q t)
      → Ends P (attempt m) (Succeeds (λ a t. Q t))
  unfolding attempt
  attempt-ends {A} P Q m hm s p = let (r, t, run, q) = hm s p in settled r t run q
    where
      settled :
          (r : Reply A) (t : S)
          → m (calm s) ≡ (r, calm t)
          → Q t
          → (z : Reply (Option A)) × (u : S) × (settle (m (calm s)) ≡ (z, calm u))
            × Succeeds (λ a t. Q t) z u
      settled (ok a) t run q = (ok (some a), t, ap settle run, q)
      settled (err e) t run q = (ok none, t, ap settle run, q)

  pub forget_result :
      {A : Type 0} (P : S → Type 0) (Q : S → Type 0) (m : M S A)
      → Ends P m (Succeeds (λ a. Q))
      → Ends P m (λ r. Q)
  forget_result {A} P Q m h s p = let (r, t, run, q) = h s p in (r, t, run, kept r t q)
    where
      kept : (r : Reply A) (t : S) → Succeeds (λ a. Q) r t → Q t
      kept (ok a) t q = q
      kept (err e) t q = absurd q

  -- A reply as a value.
  pub observe-ends :
      {A : Type 0} (P : S → Type 0) (R : Reply A → S → Type 0) (m : M S A)
      → Ends P m R
      → Ends P (observe m) (Succeeds R)
  unfolding observe
  observe-ends P R m h s p = let (r, t, run, q) = h s p in (ok r, t, ap (λ x. (ok x.0, x.1)) run, q)

  -- What a run with a result gives.
  pub Outcome-run :
      {A : Type 0} (Q : A → S → Type 0) (x : Reply A × Net S)
      → Outcome (Succeeds Q) x
      → (a : A) × (x ≡ (ok a, calm x.1.state)) × Q a x.1.state
  unfolding calm
  Outcome-run Q x (ok a, t, run, q) = (a, rw run refl, rw run q)
  Outcome-run Q x (err e, t, run, q) = absurd q

-- A chain of answered calls that keeps a predicate of the state, whether it has a result or not, and
-- one that has a result besides.
module _ {S : Type 0} (P : S → Type 0) where
  abbrev pub Stays : {A : Type 0} → M S A → Type 0
  Stays m = Ends P m (λ r. P)

  abbrev pub Finishes : {A : Type 0} → M S A → Type 0
  Finishes m = Ends P m (Succeeds (λ a. P))

  pub Stays-pure : {A : Type 0} (a : A) → Stays (pure a)
  Stays-pure a = pure-ends P (λ r. P) a (λ s p. p)

  pub Stays-request :
      {A : Type 0} (f : S → Reply A × S) → ((s : S) → P s → P (f s).1) → Stays (request f)
  Stays-request f h = request-ends P (λ r. P) f h

  pub Stays-bind :
      {A B : Type 0} (m : M S A) (f : A → M S B)
      → Stays m
      → ((a : A) → Stays (f a))
      → Stays (m >>= f)
  Stays-bind m f hm hf = bind-ends P (λ r. P) (λ r. P) m f hm hf (λ e s h. h)

  pub Stays-then : {A B : Type 0} (m : M S A) (k : M S B) → Stays m → Stays k → Stays (m >> k)
  Stays-then m k hm hk = then-ends P (λ r. P) (λ r. P) m k hm (λ a. hk) (λ e s h. h)

  pub Stays-finished : {A : Type 0} (m : M S A) → Finishes m → Stays m
  Stays-finished m h = forget_result P P m h

  pub Finishes-pure : {A : Type 0} (a : A) → Finishes (pure a)
  Finishes-pure a = pure-ends P (Succeeds (λ a. P)) a (λ s p. p)

  pub Finishes-local : (f : S → S) → ((s : S) → P s → P (f s)) → Finishes (local f)
  Finishes-local f h = local-ends P (Succeeds (λ a. P)) f h

  pub Finishes-attempt : {A : Type 0} (m : M S A) → Stays m → Finishes (attempt m)
  Finishes-attempt m h = attempt-ends P P m h

  pub Finishes-bind :
      {A B : Type 0} (m : M S A) (f : A → M S B)
      → Finishes m
      → ((a : A) → Finishes (f a))
      → Finishes (m >>= f)
  Finishes-bind m f hm hf =
      bind-ends P (Succeeds (λ a. P)) (Succeeds (λ a. P)) m f hm hf (λ e s h. h)

  pub Finishes-then :
      {A B : Type 0} (m : M S A) (k : M S B) → Finishes m → Finishes k → Finishes (m >> k)
  Finishes-then m k hm hk =
      then-ends P (Succeeds (λ a. P)) (Succeeds (λ a. P)) m k hm (λ a. hk) (λ e s h. h)

pub ruleset stays_rules = (
  Stays-pure, Stays-request, Stays-bind, Stays-then, Finishes-pure, Finishes-local,
  Finishes-attempt, Finishes-bind, Finishes-then,
)
