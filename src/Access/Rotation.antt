-- ===== src/Access/Rotation.antt =====
-- `RefreshTokenPair` of internal/modules/auth/service/auth_service.go: what becomes of the token that
-- is given for a new pair.
use queuebuzz.Prelude.{ℕ, ◌+◌, ◌*◌, ◌≤◌, ◌<◌, ◌≡◌, ◌≢◌, refl, Option, none, some, List, [], ◌∷◌}
use queuebuzz.Net.{Fate, answered, request_lost, ok, err, rejected, calm, is_nil}
use queuebuzz.Queue.World.{Backend, World}
use queuebuzz.Access.Sessions.{
  Jwt, Role, Claims, TokenPair, access_claims, refresh_token_pair, get_refresh_token,
  delete_refresh_token, set_refresh_token, issue_token_pair, issue_access_token,
  issue_refresh_token,
}

module _ (J : Jwt) (B : Backend) (old host : ℕ) (public : Option ℕ) (w : World B) where
  -- The token of a host that has a session.
  abbrev pub IsOpen : Type 0
  IsOpen = B.refresh_tokens.get old w.refresh_tokens ≡ some (host, public)

  -- What an access token of the host claims, claim by claim: it is good for a quarter of an hour.
  abbrev pub own_claims : ℕ → Claims
  own_claims id = record {
    role = Role.registered_host;
    queue_id = none;
    public_id = public;
    entry_id = none;
    subject = some host;
    expires_at = w.now + 15 * 60 * 1000;
    issued_at = w.now;
    not_before = w.now;
    id = id;
  }

  abbrev pub pair : List ℕ → ℕ → TokenPair
  pair access token = record {
    access_token = access;
    refresh_token = token;
    access_expires_at = w.now + 15 * 60 * 1000;
    refresh_expires_at = w.now + 7 * 24 * 3600 * 1000;
  }

  -- When every call is answered, a refresh token is given once for a new pair: the new access token
  -- is read back, until it expires, as one of a registered host, with the host of the session as its
  -- subject, the host's public identifier and a time of 15 minutes; the new refresh token opens the
  -- session for this host, and the old one is refused.
  pub refresh_token_pair-rotates :
      (id token : ℕ) (access : List ℕ)
      → IsOpen
      → token ≢ old
      → J.sign (own_claims id) ≡ some access
      → let r = refresh_token_pair J B id token old (calm w) in
        (r.0 ≡ ok (pair access token))
        × ((t : ℕ)
            → w.now ≤ t
            → t < w.now + 15 * 60 * 1000
            → J.verify t access ≡ some (own_claims id))
        × (B.refresh_tokens.get token r.1.state.refresh_tokens ≡ some (host, public))
        × ((i t : ℕ) → (refresh_token_pair J B i t old r.1).0 ≡ err (rejected 401))
  unfolding refresh_token_pair get_refresh_token delete_refresh_token set_refresh_token
      issue_token_pair issue_access_token issue_refresh_token calm is_nil
  refresh_token_pair-rotates id token access opened new signs =
      rw (opened, signs)
        (
          refl,
          λ t after before. J.verify-sign t (own_claims id) access signs after before,
          B.refresh_tokens.get-put token (host, public) _,
          λ i t.
              rw
                (
                  B.refresh_tokens.get-put_ne token old (host, public)
                      (B.refresh_tokens.del old w.refresh_tokens) new,
                  B.refresh_tokens.get-del old w.refresh_tokens,
                )
                refl,
        )

  -- The three attempts of the deletion.
  abbrev pub lost_deletion : List Fate
  lost_deletion = answered ∷ request_lost ∷ request_lost ∷ request_lost ∷ []

  -- If the deletion of the old token is lost three times, the new pair is given all the same, and
  -- both refresh tokens are good.
  pub refresh_token_pair-lost_deletion :
      (id token : ℕ) (access : List ℕ)
      → IsOpen
      → token ≢ old
      → J.sign (access_claims id host public w.now) ≡ some access
      → let r = refresh_token_pair J B id token old (record (calm w) { fates = lost_deletion }) in
        (r.0 ≡ ok (pair access token))
        × (B.refresh_tokens.get token r.1.state.refresh_tokens ≡ some (host, public))
        × (B.refresh_tokens.get old r.1.state.refresh_tokens ≡ some (host, public))
  unfolding refresh_token_pair get_refresh_token delete_refresh_token set_refresh_token
      issue_token_pair issue_access_token issue_refresh_token calm is_nil
  refresh_token_pair-lost_deletion id token access opened new signs =
      rw (opened, signs)
        (
          refl,
          B.refresh_tokens.get-put token (host, public) _,
          rw (B.refresh_tokens.get-put_ne token old (host, public) w.refresh_tokens new) opened,
        )
