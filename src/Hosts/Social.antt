-- ===== src/Hosts/Social.antt =====
-- `FindOrCreateHostBySocial` of internal/modules/host/service/service.go.
use queuebuzz.Prelude.{
  is_same, ℕ, Bool, true, false, not, ◌&&◌, Option, none, some, is_some, if◌then◌else◌,
}
use queuebuzz.Net.{M, Reply, ok, err, rejected, ◌>>=◌, ◌>>◌, pure, fail, observe}
use queuebuzz.Subscription.Plans.{is_no_documents}
use queuebuzz.Hosts.{
  ProviderAuth, Account, SocialIdentity, Directory, Hosts, Drawn, provider_auth,
  apply_provider_auth, has_identity, find_account, update_account, insert_account, new_account,
  returning, or_find,
}

abbrev pub auth_of : SocialIdentity → ℕ → ProviderAuth
auth_of s now = record {
  provider_user_id = s.provider_user_id;
  email = if s.email_verified then s.email else none;
  linked_at = now;
  last_login_at = now;
}

-- The account has another identity of the same provider.
abbrev pub has_other : SocialIdentity → Account → Bool
has_other s a = is_some (provider_auth s.provider a) && not (has_identity s a)

abbrev pub verified_email : SocialIdentity → Option ℕ
verified_email s = if s.email_verified then s.email else none

abbrev pub linked : SocialIdentity → ℕ → Account → Account
linked s now a = apply_provider_auth s.provider (auth_of s now) (record a { last_seen = now })

abbrev pub new_social : Drawn → SocialIdentity → ℕ → Account
new_social f s now =
    apply_provider_auth s.provider (auth_of s now) (new_account f (verified_email s) none now)

module _ (D : Directory) where
  abbrev pub link : SocialIdentity → Account → M (Hosts D) (Account × Bool)
  link s a = do update_account D a.id (linked s); λ n. (ok (linked s n.state.now a, false), n)

  abbrev pub settle_social : SocialIdentity → Reply Account → M (Hosts D) (Account × Bool)
  settle_social s (ok a) = pure (a, true)
  settle_social s (err e) = or_find D (has_identity s) e

  unfoldable pub create_social : Drawn → SocialIdentity → M (Hosts D) (Account × Bool)
  create_social f s = do
    created ← observe (insert_account D (new_social f s))
    settle_social s created

  -- What is done with the search by the address.
  abbrev pub link_or_new : Drawn → SocialIdentity → Reply Account → M (Hosts D) (Account × Bool)
  link_or_new f s (ok a) = if has_other s a then fail (rejected 500) else link s a
  link_or_new f s (err e) = if is_no_documents e then create_social f s else fail e

  abbrev pub by_email : Drawn → SocialIdentity → Option ℕ → M (Hosts D) (Account × Bool)
  by_email f s none = create_social f s
  by_email f s (some email) = do
    found ← observe (find_account D (λ a. is_same a.email (some email)))
    link_or_new f s found

  abbrev pub by_identity : Drawn → SocialIdentity → Reply Account → M (Hosts D) (Account × Bool)
  by_identity f s (ok a) = returning D a
  by_identity f s (err e) = if is_no_documents e then by_email f s (verified_email s) else fail e

  unfoldable pub find_or_create_host_by_social :
      Drawn → SocialIdentity → M (Hosts D) (Account × Bool)
  find_or_create_host_by_social f s = do
    found ← observe (find_account D (has_identity s))
    by_identity f s found
