-- ===== src/Access/Owner.antt =====
-- The middlewares of internal/middlewares/auth.go and internal/middlewares/host_owner.go. A reply
-- `ok` is a call of the next handler, and an error carries the code of the answer. The time limit
-- of a call is one of its fates.
use queuebuzz.Prelude.{
  first_of, is_same, ℕ, Bool, not, ◌&&◌, Option, none, some, List, is_some, only, ltb,
  if◌then◌else◌,
}
use queuebuzz.Net.{Reply, ok, err, rejected, ◌>>=◌, ◌>>◌, pure, fail, request, attempt, observe}
use queuebuzz.Queue.Domain.{Queue}
use queuebuzz.Queue.World.{Backend, World, Call}
use queuebuzz.Queue.Lookup.{or_missing}
use queuebuzz.Subscription.Plans.{is_no_documents}
use queuebuzz.Access.Sessions.{
  Jwt, Claims, Role, guest, anonymous_host, registered_host, verify_token,
  verify_anonymous_ownership, re_sync_anonymous_session,
}

-- The cookies that are not empty.
pub record Cookies : Type 0 where
  pub access_token : Option (List ℕ)
  pub queuebuzz_host_token : Option (List ℕ)
  pub guest_entry_token : Option (List ℕ)

-- What `setAuthLocals` stores.
pub record Locals : Type 0 where
  pub claims : Claims
  pub raw_access_token : List ℕ

-- `expires_at: {$gt: now}`, for the host's queues and for those without a host
abbrev pub is_unexpired : ℕ → Queue → Bool
is_unexpired now q = ltb now q.expires_at

abbrev pub is_ownerless : ℕ → Queue → Bool
is_ownerless now q = is_unexpired now q && not (is_some q.host_id)

module _ (J : Jwt) (B : Backend) where
  abbrev set_auth_locals : List ℕ → Option Claims → Call B Locals
  set_auth_locals t none = fail (rejected 401)
  set_auth_locals t (some c) = pure (record { claims = c; raw_access_token = t })

  abbrev authenticate : Option (List ℕ) → Call B Locals
  authenticate none = fail (rejected 401)
  authenticate (some t) = λ n. set_auth_locals t (verify_token J B t n.state) n

  -- `AuthMiddleware` and `HostAuthMiddleware`, which are the same
  unfoldable pub host_auth_middleware : Cookies → Call B Locals
  host_auth_middleware c = authenticate (first_of c.access_token c.queuebuzz_host_token)

  unfoldable pub customer_auth_middleware : Cookies → Call B Locals
  customer_auth_middleware c = authenticate c.guest_entry_token

  -- Whoever is not known goes on without locals.
  unfoldable pub optional_auth_middleware : Cookies → Call B (Option Locals)
  optional_auth_middleware c =
      attempt (authenticate (first_of c.access_token c.queuebuzz_host_token))

  abbrev pub find_where : ℕ → (ℕ → Queue → Bool) → World B → Option Queue
  find_where q p w = only (p w.now) (B.queues.find_one q w.queues)

  -- What a lost session leads to, by the reply of the search.
  abbrev pub take_over : ℕ → List ℕ → Reply Queue → Call B (Unit {0})
  take_over q t (ok queue) =
      if is_some queue.host_id
      then fail (rejected 403)
      else attempt (re_sync_anonymous_session J B t q) >> pure tt
  take_over q t (err e) = fail (rejected (if is_no_documents e then 404 else 403))

  abbrev pub unless_owned : ℕ → List ℕ → Reply (Unit {0}) → Call B (Unit {0})
  unless_owned q t (ok u) = pure tt
  unless_owned q t (err e) = do
    found ← observe (request (λ w. (or_missing (find_where q is_ownerless w), w)))
    take_over q t found

  unfoldable pub anonymous_owner : ℕ → List ℕ → Call B (Unit {0})
  anonymous_owner q t = do
    owned ← observe (verify_anonymous_ownership J B t q)
    unless_owned q t owned

  abbrev pub compare_host : Option ℕ → Reply Queue → Call B (Unit {0})
  compare_host host (ok queue) = if is_same queue.host_id host then pure tt else fail (rejected 403)
  compare_host host (err e) = fail (rejected (if is_no_documents e then 404 else 403))

  unfoldable pub registered_owner : ℕ → Option ℕ → Call B (Unit {0})
  registered_owner q host = do
    found ← observe (request (λ w. (or_missing (find_where q is_unexpired w), w)))
    compare_host host found

  abbrev pub by_role : ℕ → Claims → List ℕ → Role → Call B (Unit {0})
  by_role q c t anonymous_host =
      if is_same c.queue_id (some q) then anonymous_owner q t else fail (rejected 403)
  by_role q c t registered_host = registered_owner q c.subject
  by_role q c t guest = fail (rejected 403)

  -- `none` is an empty identifier in the path.
  unfoldable pub host_owner_middleware : Option ℕ → Locals → Call B (Unit {0})
  host_owner_middleware none l = fail (rejected 403)
  host_owner_middleware (some q) l = by_role q l.claims l.raw_access_token l.claims.role
