-- ===== src/Examples/Access.antt =====
-- The theorems on sessions and guards at small stores.
use queuebuzz.Prelude.{
  Bool, ◌+◌, ◌*◌, ◌≤◌, ◌<◌, ℕ, zero, suc, ◌≤◌, ◌<◌, only, get_or, subst, ap, ◌≡◌, refl, true, false,
  Option, none, some, List, [], ◌∷◌, ltb, leb, ◌&&◌, if◌then◌else◌, arith, ◌==◌,
}
use queuebuzz.Net.{ok, err, rejected, calm}
use queuebuzz.Queue.World.{World}
use queuebuzz.Access.Sessions.{
  Jwt, Claims, Role, registered_host, access_claims, anonymous_claims, refresh_token_pair,
}
use queuebuzz.Access.Rotation.{own_claims, pair, refresh_token_pair-rotates}
use queuebuzz.Access.Owner.{Locals, registered_owner, host_owner_middleware}
use queuebuzz.Access.Ownership.{Owns, host_owner_middleware-Owns, host_owner_middleware-replaces}
use queuebuzz.Access.Load.{
  Request, Method, Event, arrives, returns, run, step, is_bypassed, resource_guard_middleware,
}
use queuebuzz.Access.Load.Slots.{held_by, return_all, expected, run-returned}
use queuebuzz.Examples.World.{backend, world, cafe}

-- A library whose tokens are the claims themselves.
abbrev text_of : Option ℕ → ℕ
text_of none = 0
text_of (some i) = suc i

abbrev of_text : ℕ → Option ℕ
of_text zero = none
of_text (suc i) = some i

of_text-text_of : (o : Option ℕ) → of_text (text_of o) ≡ o
of_text-text_of none = refl
of_text-text_of (some i) = refl

abbrev role_text : Role → ℕ
role_text Role.guest = 0
role_text Role.anonymous_host = 1
role_text Role.registered_host = 2

abbrev text_role : ℕ → Role
text_role zero = Role.guest
text_role (suc zero) = Role.anonymous_host
text_role (suc (suc n)) = Role.registered_host

text_role-role_text : (r : Role) → text_role (role_text r) ≡ r
text_role-role_text Role.guest = refl
text_role-role_text Role.anonymous_host = refl
text_role-role_text Role.registered_host = refl

abbrev sign : Claims → Option (List ℕ)
sign c = some (
    role_text c.role
    ∷ text_of c.queue_id
    ∷ text_of c.public_id
    ∷ text_of c.entry_id
    ∷ text_of c.subject
    ∷ c.expires_at
    ∷ c.issued_at
    ∷ c.not_before
    ∷ c.id
    ∷ [])

abbrev decode : List ℕ → Option Claims
decode (role ∷ queue ∷ public ∷ entry ∷ subject ∷ expires ∷ issued ∷ before ∷ id ∷ []) =
    some (record {
      role = text_role role;
      queue_id = of_text queue;
      public_id = of_text public;
      entry_id = of_text entry;
      subject = of_text subject;
      expires_at = expires;
      issued_at = issued;
      not_before = before;
      id = id;
    })
decode _ = none

abbrev verify : ℕ → List ℕ → Option Claims
verify now t = only (λ c. leb c.not_before now && ltb now c.expires_at) (decode t)

verify-sign :
    (now : ℕ) (c : Claims) (t : List ℕ)
    → sign c ≡ some t
    → c.not_before ≤ now
    → now < c.expires_at
    → verify now t ≡ some c
verify-sign now c t e before after =
    let early : leb c.not_before now ≡ true = ground (arith, before) in
    let late : ltb now c.expires_at ≡ true = ground (arith, after) in
    subst (λ t. verify now t ≡ some c) (ap (λ o. get_or o t) e)
      (rw
        (
          early,
          late,
          text_role-role_text c.role,
          of_text-text_of c.queue_id,
          of_text-text_of c.public_id,
          of_text-text_of c.entry_id,
          of_text-text_of c.subject,
        )
        refl)

abbrev jwt : Jwt
jwt = record { sign = sign; verify = verify; sha256 = λ t. t; verify-sign = verify-sign }

abbrev claims : Claims
claims = access_claims 1 5 (some 6) 200

abbrev access : List ℕ
access = get_or (sign claims) []

abbrev with_session : World backend
with_session = record world { refresh_tokens = λ t. if t == 31 then some (5, some 6) else none }

refresh_token_pair-rotates_example :
    let r = refresh_token_pair jwt backend 1 32 31 (calm with_session) in
    (r.0 ≡ ok (pair jwt backend 31 5 (some 6) with_session access 32))
    × ((t : ℕ)
        → 200 ≤ t
        → t < 200 + 15 * 60 * 1000
        → verify t access ≡ some (own_claims jwt backend 31 5 (some 6) with_session 1))
    × (backend.refresh_tokens.get 32 r.1.state.refresh_tokens ≡ some (5, some 6))
    × ((i t : ℕ) → (refresh_token_pair jwt backend i t 31 r.1).0 ≡ err (rejected 401))
refresh_token_pair-rotates_example =
    refresh_token_pair-rotates jwt backend 31 5 (some 6) with_session 1 32 access refl
      (λ e. absurd (omega (arith, e))) refl

abbrev host_locals : Locals
host_locals = record { claims = claims; raw_access_token = access }

host_owner_middleware-Owns_example : Owns jwt backend 7 access world registered_host claims
unfolding host_owner_middleware registered_owner calm
host_owner_middleware-Owns_example =
    host_owner_middleware-Owns jwt backend 7 host_locals (calm world) refl

-- The queue has no host, and another token has its session.
abbrev replaced : World backend
replaced = record world {
  queues = record { keys = 7 ∷ []; doc = λ i. record cafe { host_id = none } };
  anon_hosts = λ q. some (1 ∷ []);
}

abbrev anonymous : Locals
anonymous = record { claims = anonymous_claims 1 7 200; raw_access_token = 2 ∷ [] }

host_owner_middleware-replaces_example :
    let r = host_owner_middleware jwt backend (some 7) anonymous (calm replaced) in
    (r.0 ≡ ok tt) × (backend.anon_hosts.get 7 r.1.state.anon_hosts ≡ some (2 ∷ []))
host_owner_middleware-replaces_example =
    host_owner_middleware-replaces jwt backend 7 (record cafe { host_id = none }) anonymous replaced
      refl refl refl refl refl

abbrev change : ℕ → Request
change i = record { id = i; method = Method.changing; path = [] }

abbrev arrivals : List Event
arrivals =
    arrives false (change 1) ∷ arrives true (change 2) ∷ arrives false (change 3) ∷ returns 1 ∷ []

run-returned_example :
    let s = run arrivals (held_by []) in
    (s.holders ≡ 3 ∷ [])
    × (s.used ≡ 1)
    × (s.used ≤ 1000)
    × ((overloaded : Bool) (r : Request)
        → (resource_guard_middleware overloaded r s).0 ≡ expected overloaded r 1)
    × ((run (return_all (3 ∷ [])) s).used ≡ 0)
unfolding run step resource_guard_middleware is_bypassed
run-returned_example = run-returned arrivals
