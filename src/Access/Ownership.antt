-- ===== src/Access/Ownership.antt =====
-- internal/middlewares/host_owner.go: who passes the guard of a queue.
use queuebuzz.Prelude.{
  is_same, ℕ, ◌≡◌, refl, sym, ap, ◌∙◌, ◌∷◌, same_text, Bool, true, false, ◌&&◌, ◌⊎◌, inl, inr,
  Option, none, some, List, [], only, ltb, ==_self, if◌then◌else◌, Bool-cases, Option-cases, arith,
  is_some, subst, get_or,
}
use queuebuzz.Net.{
  is_ok, Net, Reply, ok, err, rejected, is_nil, ◌>>=◌, pure, fail, request, observe, calm,
}
use queuebuzz.Net.Keeps.{Hoare, bind_rule, request_rule, retry_rule}
use queuebuzz.Queue.Domain.{Queue}
use queuebuzz.Queue.World.{Backend, World}
use queuebuzz.Queue.Lookup.{or_missing}
use queuebuzz.Access.Sessions.{
  Jwt, Claims, Role, guest, anonymous_host, registered_host, is_hash_of, or_empty,
  get_anon_host_token, set_anon_host_token, re_sync_anonymous_session, verify_anonymous_ownership,
}
use queuebuzz.Access.Owner.{
  Locals, is_unexpired, is_ownerless, find_where, take_over, unless_owned, compare_host,
  anonymous_owner, registered_owner, by_role, host_owner_middleware,
}

only-some :
    {A : Type 0} (p : A → Bool) (o : Option A) (a : A)
    → only p o ≡ some a
    → (o ≡ some a) × (p a ≡ true)
only-some p none a h = absurd (ground (arith, ap is_some h))
only-some p (some b) a h = tested (p b) refl h
  where
    tested :
        (t : Bool)
        → p b ≡ t
        → (if t then some b else none) ≡ some a
        → (some b ≡ some a) × (p a ≡ true)
    tested true x e = (e, subst (λ y. p y ≡ true) (ap (λ o. get_or o a) e) x)
    tested false x e = absurd (ground (arith, ap is_some e))

module _ (J : Jwt) (B : Backend) (q : ℕ) (t : List ℕ) (w : World B) where
  -- The queue is there and passes a test at this time.
  abbrev pub Finds : (ℕ → Queue → Bool) → Type 0
  Finds p = (queue : Queue) × (B.queues.find_one q w.queues ≡ some queue) × (p w.now queue ≡ true)

  -- The stored hash is that of the token.
  abbrev pub HasSession : Type 0
  HasSession =
      (hash : List ℕ) × (B.anon_hosts.get q w.anon_hosts ≡ some hash)
      × (is_hash_of J B t hash ≡ true)

  abbrev pub Owns : Role → Claims → Type 0
  Owns anonymous_host c = (is_same c.queue_id (some q) ≡ true) × (HasSession ⊎ Finds is_ownerless)
  Owns registered_host c =
      Finds (λ now queue. is_unexpired now queue && is_same queue.host_id c.subject)
  Owns guest c = ⊥

  abbrev Stored : Reply (List ℕ) → World B → Type 0
  Stored (ok hash) s = (s ≡ w) × ((hash ≡ []) ⊎ (B.anon_hosts.get q w.anon_hosts ≡ some hash))
  Stored (err e) s = s ≡ w

  or_empty-Stored : (r : Reply (List ℕ)) (s : World B) → Stored r s → Stored (or_empty J B [] r) s
  or_empty-Stored (ok hash) s h = h
  or_empty-Stored (err e) s h = elim (Bool-cases (is_nil e)) [
    | inl x ↦ rw x (h, inl refl)
    | inr x ↦ rw x h
  ]

  -- Nothing has changed so far, and a call that passes has established `X`.
  abbrev Shows : Type 0 → {A : Type 0} → Reply A → World B → Type 0
  Shows X (ok a) s = X
  Shows X (err e) s = s ≡ w

  get_anon_host_token-Stored : Hoare (λ s. s ≡ w) (get_anon_host_token J B q) Stored
  unfolding get_anon_host_token ◌>>=◌ observe
  get_anon_host_token-Stored n h = or_empty-Stored _ _ (
      retry_rule (λ s. s ≡ w) Stored _
        (request_rule (λ s. s ≡ w) Stored _
          (λ s e. elim (Option-cases (B.anon_hosts.get q s.anon_hosts)) [
            | inl x ↦ rw x e
            | inr (hash, x) ↦
                rw x (e, inr (subst (λ u. B.anon_hosts.get q u.anon_hosts ≡ some hash) e x))
          ])
          (λ s e. elim (Option-cases (B.anon_hosts.get q s.anon_hosts)) [
            | inl x ↦ rw x (e, e)
            | inr (hash, x) ↦ rw x (e, e)
          ]))
        (λ e s h. h) n h)

  verify-Shows : Hoare (λ s. s ≡ w) (verify_anonymous_ownership J B t q) (Shows HasSession)
  unfolding verify_anonymous_ownership
  verify-Shows =
      bind_rule _ Stored (Shows HasSession) _ _ get_anon_host_token-Stored compared (λ e s h. h)
    where
      compared :
          (hash : List ℕ)
          → Hoare
              (Stored (ok hash))
              (if is_hash_of J B t hash then pure tt else fail (rejected 403))
              (Shows HasSession)
      compared hash n (same, inl empty) = rw empty same
      compared hash n (same, inr stored) = elim (Bool-cases (is_hash_of J B t hash)) [
        | inl x ↦ rw x (hash, stored, x)
        | inr x ↦ rw x same
      ]

  abbrev Found : (ℕ → Queue → Bool) → Reply Queue → Type 0
  Found p (ok queue) = (B.queues.find_one q w.queues ≡ some queue) × (p w.now queue ≡ true)
  Found p (err e) = Unit

  or_missing-Found :
      (p : ℕ → Queue → Bool) (o : Option Queue) → find_where J B q p w ≡ o → Found p (or_missing o)
  or_missing-Found p none e = tt
  or_missing-Found p (some queue) e = only-some (p w.now) (B.queues.find_one q w.queues) queue e

  find-Found :
      (p : ℕ → Queue → Bool)
      → Hoare
          (λ s. s ≡ w)
          (request (λ u. (or_missing (find_where J B q p u), u)))
          (λ r s. Found p r)
  find-Found p =
      request_rule (λ s. s ≡ w) (λ r s. Found p r) _
        (λ s e.
          subst (λ u. Found p (or_missing (find_where J B q p u))) (sym e)
            (or_missing-Found p _ refl))
        (λ s e. (tt, tt))

  -- A call that passes does so only if `X`.
  abbrev Passes : Type 0 → {A : Type 0} → Reply A → Type 0
  Passes X (ok a) = X
  Passes X (err e) = Unit

  passes : (X : Type 0) {A : Type 0} (r : Reply A) → X → Passes X r
  passes X (ok a) x = x
  passes X (err e) x = tt

  is_ok-Passes : (X : Type 0) {A : Type 0} (r : Reply A) → Passes X r → is_ok r ≡ true → X
  is_ok-Passes X (ok a) x e = x
  is_ok-Passes X (err e) x h = absurd (ground (arith, h))

  take_over-Passes :
      (found : Reply Queue) (n : Net (World B))
      → Found is_ownerless found
      → Passes (HasSession ⊎ Finds is_ownerless) (take_over J B q t found n).0
  take_over-Passes (ok queue) n h =
      passes (HasSession ⊎ Finds is_ownerless) (take_over J B q t (ok queue) n).0
        (inr (queue, h.0, h.1))
  take_over-Passes (err e) n h = tt

  unless_owned-Passes :
      (owned : Reply (Unit {0})) (n : Net (World B))
      → Shows HasSession owned n.state
      → Passes (HasSession ⊎ Finds is_ownerless) (unless_owned J B q t owned n).0
  unfolding ◌>>=◌ observe
  unless_owned-Passes (ok u) n x = inl x
  unless_owned-Passes (err e) n same =
      let search_queue : Reply Queue × Net (World B) =
        request (λ u. (or_missing (find_where J B q is_ownerless u), u)) n in
      take_over-Passes search_queue.0 search_queue.1 (find-Found is_ownerless n same)

  compare_host-Passes :
      (host : Option ℕ) (found : Reply Queue) (n : Net (World B))
      → Found is_unexpired found
      → Passes
          (Finds (λ now queue. is_unexpired now queue && is_same queue.host_id host))
          (compare_host J B host found n).0
  compare_host-Passes host (ok queue) n (stored, fresh) =
      elim (Bool-cases (is_same queue.host_id host)) [
        | inl x ↦ rw x (queue, stored, rw (fresh, x) refl)
        | inr x ↦ rw x tt
      ]
  compare_host-Passes host (err e) n h = tt

  anonymous_owner-Passes :
      (n : Net (World B))
      → n.state ≡ w
      → Passes (HasSession ⊎ Finds is_ownerless) (anonymous_owner J B q t n).0
  unfolding anonymous_owner ◌>>=◌ observe
  anonymous_owner-Passes n same =
      let owned : Reply (Unit {0}) × Net (World B) = verify_anonymous_ownership J B t q n in
      unless_owned-Passes owned.0 owned.1 (verify-Shows n same)

  registered_owner-Passes :
      (host : Option ℕ) (n : Net (World B))
      → n.state ≡ w
      → Passes
          (Finds (λ now queue. is_unexpired now queue && is_same queue.host_id host))
          (registered_owner J B q host n).0
  unfolding registered_owner ◌>>=◌ observe
  registered_owner-Passes host n same =
      let search_queue : Reply Queue × Net (World B) =
        request (λ u. (or_missing (find_where J B q is_unexpired u), u)) n in
      compare_host-Passes host search_queue.0 search_queue.1 (find-Found is_unexpired n same)

  by_role-Passes :
      (role : Role) (c : Claims) (n : Net (World B))
      → n.state ≡ w
      → Passes (Owns role c) (by_role J B q c t role n).0
  by_role-Passes anonymous_host c n same = tested (is_same c.queue_id (some q)) refl
    where
      both :
          is_same c.queue_id (some q) ≡ true
          → (r : Reply (Unit {0})) → Passes (HasSession ⊎ Finds is_ownerless) r
          → Passes (Owns anonymous_host c) r
      both x (ok u) h = (x, h)
      both x (err e) h = tt

      tested :
          (b : Bool)
          → is_same c.queue_id (some q) ≡ b
          → Passes
              (Owns anonymous_host c)
              ((if b then anonymous_owner J B q t else fail (rejected 403)) n).0
      tested true x = both x _ (anonymous_owner-Passes n same)
      tested false x = tt
  by_role-Passes registered_host c n same = registered_owner-Passes c.subject n same
  by_role-Passes guest c n same = tt

-- Whatever the fates of the calls, who passes the guard of a queue owns it: a registered host is the
-- host of the queue, which has not expired; an anonymous one has a token for the queue, and this is
-- the token of its session or the queue has no host and has not expired; a guest never passes.
pub host_owner_middleware-Owns :
    (J : Jwt) (B : Backend) (q : ℕ) (l : Locals) (n : Net (World B))
    → is_ok (host_owner_middleware J B (some q) l n).0 ≡ true
    → Owns J B q l.raw_access_token n.state l.claims.role l.claims
unfolding host_owner_middleware
host_owner_middleware-Owns J B q l n passed =
    is_ok-Passes J B q l.raw_access_token n.state _ _
      (by_role-Passes J B q l.raw_access_token n.state l.claims.role l.claims n refl) passed

-- A text with the same codes is the same text.
same_text-eq : (s t : List ℕ) → same_text s t ≡ true → s ≡ t
same_text-eq [] [] h = refl
same_text-eq [] (b ∷ t) h = ground (arith, h)
same_text-eq (a ∷ s) [] h = ground (arith, h)
same_text-eq (a ∷ s) (b ∷ t) h = ground (arith, h, same_text-eq s t)

hash-eq :
    (J : Jwt) (B : Backend) (t hash : List ℕ) → is_hash_of J B t hash ≡ true → J.sha256 t ≡ hash
hash-eq J B t [] h = ground (arith, h)
hash-eq J B t (c ∷ cs) h = same_text-eq (J.sha256 t) (c ∷ cs) h

-- When every call is answered, whoever has a token for a queue without a host that has not expired
-- passes, and the session of the queue is then the one of this token, whether there was no session,
-- one of this token, or one of another.
pub host_owner_middleware-replaces :
    (J : Jwt) (B : Backend) (q : ℕ) (queue : Queue) (l : Locals) (w : World B)
    → l.claims.role ≡ anonymous_host
    → l.claims.queue_id ≡ some q
    → B.queues.find_one q w.queues ≡ some queue
    → ltb w.now queue.expires_at ≡ true
    → queue.host_id ≡ none
    → let r = host_owner_middleware J B (some q) l (calm w) in
      (r.0 ≡ ok tt) × (B.anon_hosts.get q r.1.state.anon_hosts ≡ some (J.sha256 l.raw_access_token))
unfolding host_owner_middleware anonymous_owner verify_anonymous_ownership get_anon_host_token
    re_sync_anonymous_session set_anon_host_token calm is_nil
host_owner_middleware-replaces J B q queue l w role own stored live ownerless =
    elim (Option-cases (B.anon_hosts.get q w.anon_hosts)) [
      | inl x ↦
          rw (role, own, ==_self q, x, stored, live, ownerless)
            (refl, B.anon_hosts.get-put q (J.sha256 l.raw_access_token) w.anon_hosts)
      | inr (hash, x) ↦ elim (Bool-cases (is_hash_of J B l.raw_access_token hash)) [
        | inl y ↦
            rw (role, own, ==_self q, x, y)
              (refl, x ∙ ap some (sym (hash-eq J B l.raw_access_token hash y)))
        | inr y ↦
            rw (role, own, ==_self q, x, y, stored, live, ownerless)
              (refl, B.anon_hosts.get-put q (J.sha256 l.raw_access_token) w.anon_hosts)
      ]
    ]
