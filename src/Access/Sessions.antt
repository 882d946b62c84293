-- ===== src/Access/Sessions.antt =====
-- internal/modules/auth/service/auth_service.go, and the keys of it in
-- internal/services/redis_service.go. The library of JSON web tokens signs and checks; the keys, the
-- issuer and the reading of PEM files are in it. Identifiers that are drawn at random are arguments.
-- Since no identifier of a host has a colon, the text `host:public` is the pair of both, and the
-- public identifier is `none` where there is no colon.
use queuebuzz.Prelude.{
  ℕ, ◌+◌, ◌*◌, ◌≡◌, ◌<◌, ◌≤◌, Bool, false, Option, none, some, List, [], is_empty, same_text,
  if◌then◌else◌,
}
use queuebuzz.Net.{
  Reply, ok, err, nil_reply, rejected, is_nil, ◌>>=◌, ◌>>◌, pure, fail, request, write, attempt,
  observe, with_retry,
}
use queuebuzz.Queue.World.{Backend, World, Call}

pub data Role : Type 0 where
  guest anonymous_host registered_host : Role

-- `QueueBuzzClaims`; the subject is the host.
pub record Claims : Type 0 where
  pub role : Role
  pub queue_id : Option ℕ
  pub public_id : Option ℕ
  pub entry_id : Option ℕ
  pub subject : Option ℕ
  pub expires_at : ℕ
  pub issued_at : ℕ
  pub not_before : ℕ
  pub id : ℕ

-- `SignedString`, `ParseWithClaims` at a time, and SHA-256. A token that was signed is read back
-- while it is valid.
pub record Jwt : Type 0 where
  pub sign : Claims → Option (List ℕ)
  pub verify : ℕ → List ℕ → Option Claims
  pub sha256 : List ℕ → List ℕ
  pub verify-sign :
      (now : ℕ) (c : Claims) (t : List ℕ)
      → sign c ≡ some t
      → c.not_before ≤ now
      → now < c.expires_at
      → verify now t ≡ some c

-- Milliseconds.
abbrev pub day : ℕ
day = 24 * 3600 * 1000

abbrev pub access_ttl : ℕ
access_ttl = 15 * 60 * 1000

abbrev pub refresh_ttl : ℕ
refresh_ttl = 7 * day

abbrev pub claims_for : ℕ → ℕ → ℕ → Claims
claims_for id ttl now = record {
  role = Role.guest;
  queue_id = none;
  public_id = none;
  entry_id = none;
  subject = none;
  expires_at = now + ttl;
  issued_at = now;
  not_before = now;
  id = id;
}

abbrev pub guest_claims : ℕ → ℕ → ℕ → ℕ → Claims
guest_claims id queue entry now = record (claims_for id day now) {
  queue_id = some queue;
  entry_id = some entry;
}

abbrev pub anonymous_claims : ℕ → ℕ → ℕ → Claims
anonymous_claims id queue now = record (claims_for id day now) {
  role = Role.anonymous_host;
  queue_id = some queue;
}

abbrev pub access_claims : ℕ → ℕ → Option ℕ → ℕ → Claims
access_claims id host public now = record (claims_for id access_ttl now) {
  role = Role.registered_host;
  subject = some host;
  public_id = public;
}

pub record TokenPair : Type 0 where
  pub access_token : List ℕ
  pub refresh_token : ℕ
  pub access_expires_at : ℕ
  pub refresh_expires_at : ℕ

module _ (J : Jwt) (B : Backend) where
  abbrev signed : Option (List ℕ) → Call B (List ℕ)
  signed none = fail (rejected 500)
  signed (some t) = pure t

  unfoldable pub issue_guest_entry_token : ℕ → ℕ → ℕ → Call B (List ℕ)
  issue_guest_entry_token id queue entry n =
      signed (J.sign (guest_claims id queue entry n.state.now)) n

  unfoldable pub set_anon_host_token : ℕ → List ℕ → Call B (Unit {0})
  set_anon_host_token q hash =
      with_retry (write (λ w. record w { anon_hosts = B.anon_hosts.put q hash w.anon_hosts }))

  -- A missing key is the empty text.
  abbrev pub or_empty {ℓ} : {A : Type ℓ} → A → Reply A → Reply A
  or_empty a (ok b) = ok b
  or_empty a (err e) = if is_nil e then ok a else err e

  unfoldable pub get_anon_host_token : ℕ → Call B (List ℕ)
  get_anon_host_token q = do
    found ← observe (
        with_retry (
          request (λ w. elim (B.anon_hosts.get q w.anon_hosts) [
            | none ↦ (err nil_reply, w)
            | some hash ↦ (ok hash, w)
          ])))
    λ n. (or_empty [] found, n)

  abbrev store_anon_host : ℕ → List ℕ → Call B (List ℕ)
  store_anon_host q t = do set_anon_host_token q (J.sha256 t); pure t

  unfoldable pub issue_anonymous_token : ℕ → ℕ → Call B (List ℕ)
  issue_anonymous_token id q = do
    t ← λ n. signed (J.sign (anonymous_claims id q n.state.now)) n
    store_anon_host q t

  abbrev pub is_hash_of : List ℕ → List ℕ → Bool
  is_hash_of t hash = if is_empty hash then false else same_text (J.sha256 t) hash

  unfoldable pub verify_anonymous_ownership : List ℕ → ℕ → Call B (Unit {0})
  verify_anonymous_ownership t q = do
    hash ← get_anon_host_token q
    if is_hash_of t hash then pure tt else fail (rejected 403)

  unfoldable pub re_sync_anonymous_session : List ℕ → ℕ → Call B (Unit {0})
  re_sync_anonymous_session t q = set_anon_host_token q (J.sha256 t)

  unfoldable pub issue_access_token : ℕ → ℕ → Option ℕ → Call B (List ℕ)
  issue_access_token id host public n = signed (J.sign (access_claims id host public n.state.now)) n

  unfoldable pub set_refresh_token : ℕ → ℕ × Option ℕ → Call B (Unit {0})
  set_refresh_token token payload = with_retry (
      write
        (λ w. record w { refresh_tokens = B.refresh_tokens.put token payload w.refresh_tokens }))

  unfoldable pub get_refresh_token : ℕ → Call B (Option (ℕ × Option ℕ))
  get_refresh_token token = do
    found ← observe (
        with_retry (
          request (λ w. elim (B.refresh_tokens.get token w.refresh_tokens) [
            | none ↦ (err nil_reply, w)
            | some payload ↦ (ok (some payload), w)
          ])))
    λ n. (or_empty none found, n)

  unfoldable pub delete_refresh_token : ℕ → Call B (Unit {0})
  delete_refresh_token token =
      with_retry
        (write (λ w. record w { refresh_tokens = B.refresh_tokens.del token w.refresh_tokens }))

  unfoldable pub issue_refresh_token : ℕ → ℕ → Option ℕ → Call B ℕ
  issue_refresh_token token host public = do set_refresh_token token (host, public); pure token

  abbrev pub pair_of : List ℕ → ℕ → Call B TokenPair
  pair_of access refresh n = (
    ok (record {
      access_token = access;
      refresh_token = refresh;
      access_expires_at = n.state.now + access_ttl;
      refresh_expires_at = n.state.now + refresh_ttl;
    }),
    n,
  )

  unfoldable pub issue_token_pair : ℕ → ℕ → ℕ → Option ℕ → Call B TokenPair
  issue_token_pair id token host public = do
    access ← issue_access_token id host public
    refresh ← issue_refresh_token token host public
    pair_of access refresh

  abbrev rotate : ℕ → ℕ → ℕ → Option (ℕ × Option ℕ) → Call B TokenPair
  rotate id token old none = fail (rejected 401)
  rotate id token old (some (host, public)) = do
    attempt (delete_refresh_token old)
    issue_token_pair id token host public

  unfoldable pub refresh_token_pair : ℕ → ℕ → ℕ → Call B TokenPair
  refresh_token_pair id token old = do payload ← get_refresh_token old; rotate id token old payload

  -- `VerifyToken` at the time of the call
  unfoldable pub verify_token : List ℕ → World B → Option Claims
  verify_token t w = J.verify w.now t
