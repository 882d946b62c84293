-- ===== src/Hosts.antt =====
-- internal/modules/host/service/service.go: the accounts of hosts. An address, a phone number and the
-- identity at a provider are opaque numbers, and an empty one is `none`; the identifiers of a new
-- account are arguments. The fields that are not read are left out.
pub mod Social
pub mod Logins
use queuebuzz.Prelude.{
  is_same, ℕ, ◌≡◌, Bool, true, false, ◌&&◌, ◌||◌, Option, none, some, List, [], ◌∷◌, is_some,
  if◌then◌else◌, ◌==◌,
}
use queuebuzz.Net.{
  M, Error, no_documents, duplicate_key, Reply, ok, err, rejected, ◌>>=◌, ◌>>◌, pure, fail, request,
  write, attempt, observe, local,
}
use queuebuzz.Store.{Collection}
use queuebuzz.Queue.Lookup.{or_missing}
use queuebuzz.Subscription.Domain.{free_tier}
use queuebuzz.Subscription.Plans.{is_no_documents}

pub data Provider : Type 0 where
  google apple : Provider

pub record ProviderAuth : Type 0 where
  pub provider_user_id : ℕ
  pub email : Option ℕ
  pub linked_at : ℕ
  pub last_login_at : ℕ

pub record Account : Type 0 where
  pub id : ℕ
  pub public_id : ℕ
  pub email : Option ℕ
  pub phone : Option ℕ
  pub google_auth : Option ProviderAuth
  pub apple_auth : Option ProviderAuth
  pub tier : ℕ
  pub terms_accepted : Bool
  pub created_at : ℕ
  pub last_seen : ℕ

pub record SocialIdentity : Type 0 where
  pub provider : Provider
  pub provider_user_id : ℕ
  pub email : Option ℕ
  pub email_verified : Bool

abbrev pub provider_auth : Provider → Account → Option ProviderAuth
provider_auth google a = a.google_auth
provider_auth apple a = a.apple_auth

abbrev pub apply_provider_auth : Provider → ProviderAuth → Account → Account
apply_provider_auth google p a = record a { google_auth = some p }
apply_provider_auth apple p a = record a { apple_auth = some p }

-- The filter on `social_auth.{provider}.provider_user_id`
abbrev pub is_user : ℕ → Option ProviderAuth → Bool
is_user u none = false
is_user u (some p) = p.provider_user_id == u

abbrev pub has_identity : SocialIdentity → Account → Bool
has_identity s a = is_user s.provider_user_id (provider_auth s.provider a)

pub data AuthMethod : Type 0 where
  magic_link : AuthMethod
  social : Provider → AuthMethod

abbrev method_of : Account → AuthMethod
method_of a =
    if is_some a.google_auth
    then social google
    else (if is_some a.apple_auth then social apple else magic_link)

-- The collection, with `FindOne` by a filter.
pub record Directory : Type 1 where
  pub accounts : Collection {D = Account} (λ a. a.id)
  pub first : (Account → Bool) → accounts.Col → Option Account
  pub first_found :
      (p : Account → Bool) (c : accounts.Col) (a : Account)
      → first p c ≡ some a
      → (accounts.find_one a.id c ≡ some a) × (p a ≡ true)
  pub first_missed :
      (p : Account → Bool) (c : accounts.Col) (a : Account)
      → first p c ≡ none
      → accounts.find_one a.id c ≡ some a
      → p a ≡ false

pub record Hosts (D : Directory) : Type 0 where
  pub accounts : D.accounts.Col
  -- the addresses that a welcome was sent to
  pub welcomes : List ℕ
  pub now : ℕ

-- The identifiers that are drawn for a new account.
pub record Drawn : Type 0 where
  pub id : ℕ
  pub public_id : ℕ

abbrev pub seen : ℕ → Account → Account
seen now a = record a { last_seen = now }

abbrev pub new_account : Drawn → Option ℕ → Option ℕ → ℕ → Account
new_account f email phone now = record {
  id = f.id;
  public_id = f.public_id;
  email = email;
  phone = phone;
  google_auth = none;
  apple_auth = none;
  tier = free_tier;
  terms_accepted = false;
  created_at = now;
  last_seen = now;
}

-- The filter by the address, or by the phone number if there is none, or by nothing.
abbrev pub by_contact : Option ℕ → Option ℕ → Account → Bool
by_contact (some e) phone a = is_same a.email (some e)
by_contact none (some p) a = is_same a.phone (some p)
by_contact none none a = true

abbrev pub is_duplicate_key : Error → Bool
is_duplicate_key duplicate_key = true
is_duplicate_key _ = false

module _ (D : Directory) where
  abbrev pub find_account : (Account → Bool) → M (Hosts D) Account
  find_account p = request (λ s. (or_missing (D.first p s.accounts), s))

  abbrev pub update_account : ℕ → (ℕ → Account → Account) → M (Hosts D) (Unit {0})
  update_account i f =
      write (λ s. record s { accounts = D.accounts.update_one i (f s.now) s.accounts })

  abbrev pub insert_account : (ℕ → Account) → M (Hosts D) Account
  insert_account f = request (λ s. elim (D.accounts.insert_one (f s.now) s.accounts) [
    | none ↦ (err duplicate_key, s)
    | some c ↦ (ok (f s.now), record s { accounts = c })
  ])

  -- An account that was there: it is seen, and was not created.
  abbrev pub returning : Account → M (Hosts D) (Account × Bool)
  returning a = do attempt (update_account a.id seen); pure (a, false)

  -- Whoever finds the address taken looks once more; the error is that of the insertion.
  abbrev pub found_again : Error → Reply Account → M (Hosts D) (Account × Bool)
  found_again e (ok a) = returning a
  found_again e (err x) = fail e

  abbrev pub or_find : (Account → Bool) → Error → M (Hosts D) (Account × Bool)
  or_find p e =
      let again = observe (find_account p) >>= found_again e in
      if is_duplicate_key e then again else fail e

  abbrev pub welcome : Option ℕ → M (Hosts D) (Unit {0})
  welcome none = pure tt
  welcome (some e) = local (λ s. record s { welcomes = e ∷ s.welcomes })

  abbrev pub settle_new : Option ℕ → (Account → Bool) → Reply Account → M (Hosts D) (Account × Bool)
  settle_new email p (ok a) = do welcome email; pure (a, true)
  settle_new email p (err e) = or_find p e

  unfoldable pub create_host : Drawn → Option ℕ → Option ℕ → M (Hosts D) (Account × Bool)
  create_host f email phone = do
    created ← observe (insert_account (new_account f email phone))
    settle_new email (by_contact email phone) created

  -- Any error of the search counts as a missing account.
  abbrev pub found_or_new :
      Drawn → Option ℕ → Option ℕ → Reply Account → M (Hosts D) (Account × Bool)
  found_or_new f email phone (ok a) = returning a
  found_or_new f email phone (err e) = create_host f email phone

  unfoldable pub find_or_create_host : Drawn → Option ℕ → Option ℕ → M (Hosts D) (Account × Bool)
  find_or_create_host f email phone = do
    found ← observe (find_account (by_contact email phone))
    found_or_new f email phone found

  unfoldable pub find_by_id : ℕ → M (Hosts D) Account
  find_by_id i = request (λ s. (or_missing (D.accounts.find_one i s.accounts), s))

  unfoldable pub find_by_public_id : ℕ → M (Hosts D) Account
  find_by_public_id i = find_account (λ a. a.public_id == i)

  abbrev method_or : Reply Account → M (Hosts D) AuthMethod
  method_or (ok a) = pure (method_of a)
  method_or (err e) = if is_no_documents e then pure magic_link else fail e

  unfoldable pub check_auth_method : ℕ → M (Hosts D) AuthMethod
  check_auth_method email = do
    found ← observe (find_account (λ a. is_same a.email (some email)))
    method_or found
