-- ===== src/Examples/Hosts.antt =====
-- The theorem on logins at a directory of one account.
use queuebuzz.Prelude.{
  ◌≡◌, refl, sym, ap, subst, Bool, true, false, Option, none, some, List, [], ◌∷◌, All, any, only,
  is_some, ◌==◌, if◌then◌else◌, arith, ◌∙◌, get_or,
}
use queuebuzz.Store.{Collection}
use queuebuzz.Store.Concrete.{collection}
use queuebuzz.Net.{calm}
use queuebuzz.Hosts.{Account, Directory, Hosts, Drawn, SocialIdentity, google}
use queuebuzz.Hosts.Social.{find_or_create_host_by_social}
use queuebuzz.Hosts.Logins.{Allowed, find_or_create_host_by_social-Allowed}

abbrev head {ℓ} : {A : Type ℓ} → List A → Option A
head [] = none
head (a ∷ rest) = some a

head-All : {A : Type 0} (P : A → Type 0) (xs : List A) (a : A) → All P xs → head xs ≡ some a → P a
head-All P [] a h e = absurd (ground (arith, ap is_some e))
head-All P (x ∷ xs) a h e = subst P (ap (λ o. get_or o a) e) h.0

head-none : {A : Type 0} (xs : List A) → head xs ≡ none → xs ≡ []
head-none [] e = refl
head-none (x ∷ xs) e = absurd (ground (arith, ap is_some e))

abbrev store : Collection {D = Account} (λ a. a.id)
store = collection {D = Account} (λ a. a.id)

first_missed :
    (p : Account → Bool) (c : store.Col) (a : Account)
    → head (store.find p c) ≡ none
    → store.find_one a.id c ≡ some a
    → p a ≡ false
first_missed p c a missed stored = passed (p a) (
    sym (ap (any (λ d. d.id == a.id)) (head-none (store.find p c) missed))
    ∙ store.any-find a.id p c
    ∙ ap (λ o. is_some (only p o)) stored)
  where
    passed : (b : Bool) → false ≡ is_some (if b then some a else none) → b ≡ false
    passed true e = absurd (ground (arith, e))
    passed false e = refl

abbrev directory : Directory
directory = record {
  accounts = store;
  first = λ p c. head (store.find p c);
  first_found = λ p c a e.
      head-All (λ d. (store.find_one d.id c ≡ some d) × (p d ≡ true)) (store.find p c) a
        (store.find_sound p c) e;
  first_missed = first_missed;
}

abbrev account : Account
account = record {
  id = 8;
  public_id = 80;
  email = some 55;
  phone = none;
  google_auth = none;
  apple_auth = none;
  tier = 0;
  terms_accepted = true;
  created_at = 10;
  last_seen = 20;
}

abbrev hosts : Hosts directory
hosts = record { accounts = record { keys = 8 ∷ []; doc = λ i. account }; welcomes = []; now = 30 }

abbrev fresh : Drawn
fresh = record { id = 9; public_id = 90 }

abbrev identity : SocialIdentity
identity = record {
  provider = google;
  provider_user_id = 700;
  email = some 55;
  email_verified = true;
}

find_or_create_host_by_social-Allowed_example :
    Allowed directory fresh identity hosts.accounts
      (find_or_create_host_by_social directory fresh identity (calm hosts)).0
unfolding calm
find_or_create_host_by_social-Allowed_example =
    find_or_create_host_by_social-Allowed directory fresh identity (calm hosts)
