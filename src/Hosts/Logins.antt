-- ===== src/Hosts/Logins.antt =====
-- `FindOrCreateHostBySocial` of internal/modules/host/service/service.go: whose account a login gets.
use queuebuzz.Prelude.{
  is_same, ℕ, ◌≡◌, refl, sym, subst, ap, ◌⊎◌, inl, inr, Bool, true, false, Option, none, some,
  Option-cases, if◌then◌else◌, is_some, arith,
}
use queuebuzz.Net.{
  Net, Error, Reply, ok, err, rejected, ◌>>=◌, ◌>>◌, pure, fail, observe, attempt, continue, settle,
}
use queuebuzz.Net.Keeps.{Hoare, request_rule}
use queuebuzz.Queue.Lookup.{or_missing}
use queuebuzz.Subscription.Plans.{is_no_documents}
use queuebuzz.Hosts.{
  Provider, google, apple, ProviderAuth, Account, SocialIdentity, Directory, Hosts, Drawn,
  has_identity, is_duplicate_key, apply_provider_auth, find_account, insert_account, update_account,
  returning, found_again, or_find,
}
use queuebuzz.Hosts.Social.{
  has_other, verified_email, linked, link, new_social, auth_of, settle_social, create_social,
  link_or_new, by_email, by_identity, find_or_create_host_by_social,
}

id-apply : (p : Provider) (q : ProviderAuth) (a : Account) → (apply_provider_auth p q a).id ≡ a.id
id-apply google q a = refl
id-apply apple q a = refl

module _ (D : Directory) (f : Drawn) (s : SocialIdentity) (c : D.accounts.Col) where
  -- An account that was there and has the identity, or the verified address and no other identity
  -- of the provider.
  abbrev pub Entitled : Account → Type 0
  Entitled a =
      (b : Account) × (D.accounts.find_one b.id c ≡ some b)
      × (a.id ≡ b.id)
      × ((has_identity s b ≡ true)
          ⊎ ((s.email_verified ≡ true)
              × (is_same b.email s.email ≡ true)
              × (has_other s b ≡ false)))

  -- A login that succeeds gets such an account, or a new one.
  abbrev pub Allowed : Reply (Account × Bool) → Type 0
  Allowed (ok (a, true)) = a.id ≡ f.id
  Allowed (ok (a, false)) = Entitled a
  Allowed (err e) = Unit

  abbrev Intact : Hosts D → Type 0
  Intact u = u.accounts ≡ c

  abbrev Found : (Account → Bool) → Reply Account → Hosts D → Type 0
  Found p (ok a) u = Intact u × (D.first p c ≡ some a)
  Found p (err e) u = Intact u

  find_account-Found : (p : Account → Bool) → Hoare Intact (find_account D p) (Found p)
  find_account-Found p = request_rule Intact (Found p) _ (λ u h. found u h _ refl) (λ u h. (h, h))
    where
      found :
          (u : Hosts D)
          → Intact u
          → (o : Option Account) → D.first p u.accounts ≡ o
          → Found p (or_missing o) u
      found u h none e = h
      found u h (some a) e = (h, subst (λ k. D.first p k ≡ some a) h e)

  abbrev Inserted : Reply Account → Hosts D → Type 0
  Inserted (ok a) u = a.id ≡ f.id
  Inserted (err e) u = is_duplicate_key e ≡ true → Intact u

  insert_account-Inserted : Hoare Intact (insert_account D (new_social f s)) Inserted
  insert_account-Inserted =
      request_rule Intact Inserted _
        (λ u h. elim (Option-cases (D.accounts.insert_one (new_social f s u.now) u.accounts)) [
          | inl x ↦ rw x (λ e. h)
          | inr (k, x) ↦ rw x (id-apply s.provider (auth_of s u.now) _)
        ])
        (λ u h. ((λ e. h), λ e. absurd (ground (arith, e))))

  settled-Allowed :
      {A : Type 0} (a : Account) (r : Reply A × Net (Hosts D))
      → Entitled a
      → Allowed (continue (λ o. pure (a, false)) (settle r)).0
  settled-Allowed a (ok x, n) h = h
  settled-Allowed a (err e, n) h = h

  returning-Allowed : (a : Account) (n : Net (Hosts D)) → Entitled a → Allowed (returning D a n).0
  unfolding ◌>>◌ ◌>>=◌ attempt
  returning-Allowed a n h = settled-Allowed a _ h

  with_identity : (a : Account) → D.first (has_identity s) c ≡ some a → Entitled a
  with_identity a e =
      let (stored, has) = D.first_found (has_identity s) c a e in (a, stored, refl, inl has)

  or_find-Allowed :
      (e : Error) (n : Net (Hosts D))
      → (is_duplicate_key e ≡ true → Intact n.state)
      → Allowed (or_find D (has_identity s) e n).0
  unfolding ◌>>=◌ observe
  or_find-Allowed e n h = again (is_duplicate_key e) h
    where
      looked :
          (r : Reply Account) (m : Net (Hosts D))
          → Found (has_identity s) r m.state
          → Allowed (found_again D e r m).0
      looked (ok a) m (same, x) = returning-Allowed a m (with_identity a x)
      looked (err x) m same = tt

      again :
          (b : Bool)
          → (b ≡ true → Intact n.state)
          → Allowed
              ((if b then observe (find_account D (has_identity s)) >>= found_again D e else fail e)
                n).0
      again true k = looked _ _ (find_account-Found (has_identity s) n (k refl))
      again false k = tt

  create_social-Allowed : (n : Net (Hosts D)) → Intact n.state → Allowed (create_social D f s n).0
  unfolding create_social ◌>>=◌ observe
  create_social-Allowed n h = settle _ _ (insert_account-Inserted n h)
    where
      settle :
          (r : Reply Account) (m : Net (Hosts D))
          → Inserted r m.state
          → Allowed (settle_social D s r m).0
      settle (ok a) m x = x
      settle (err e) m x = or_find-Allowed e m x

  -- The search by the verified address has found this one.
  abbrev Owner : ℕ → Account → Type 0
  Owner email a =
      (s.email_verified ≡ true)
      × (s.email ≡ some email)
      × (D.first (λ b. is_same b.email (some email)) c ≡ some a)

  Owner-Entitled :
      (email : ℕ) (a : Account) (now : ℕ)
      → Owner email a
      → has_other s a ≡ false
      → Entitled (linked s now a)
  Owner-Entitled email a now (verified, same, found) other =
      let (stored, has) = D.first_found (λ b. is_same b.email (some email)) c a found in
      (
        a,
        stored,
        id-apply s.provider (auth_of s now) (record a { last_seen = now }),
        inr (verified, subst (λ o. is_same a.email o ≡ true) (sym same) has, other),
      )

  link-Allowed :
      (email : ℕ) (a : Account) (n : Net (Hosts D))
      → Owner email a
      → has_other s a ≡ false
      → Allowed (link D s a n).0
  unfolding ◌>>◌ ◌>>=◌
  link-Allowed email a n owner other = answer (update_account D a.id (linked s) n)
    where
      answer :
          (r : Reply (Unit {0}) × Net (Hosts D))
          → Allowed (continue (λ o m. (ok (linked s m.state.now a, false), m)) r).0
      answer (ok x, m) = Owner-Entitled email a m.state.now owner other
      answer (err e, m) = tt

  link_or_new-Allowed :
      (email : ℕ) (r : Reply Account) (n : Net (Hosts D))
      → s.email_verified ≡ true
      → s.email ≡ some email
      → Found (λ b. is_same b.email (some email)) r n.state
      → Allowed (link_or_new D f s r n).0
  link_or_new-Allowed email (ok a) n verified same (h, found) = linked_unless (has_other s a) refl
    where
      linked_unless :
          (b : Bool)
          → has_other s a ≡ b
          → Allowed ((if b then fail (rejected 500) else link D s a) n).0
      linked_unless true x = tt
      linked_unless false x = link-Allowed email a n (verified, same, found) x
  link_or_new-Allowed email (err e) n verified same h = created_if (is_no_documents e)
    where
      created_if : (b : Bool) → Allowed ((if b then create_social D f s else fail e) n).0
      created_if true = create_social-Allowed n h
      created_if false = tt

  verified_email_lem :
      (b : Bool) (o : Option ℕ) (email : ℕ)
      → (if b then o else none) ≡ some email
      → (b ≡ true) × (o ≡ some email)
  verified_email_lem true o email e = (refl, e)
  verified_email_lem false o email e = absurd (ground (arith, ap is_some e))

  by_email-Allowed :
      (o : Option ℕ) (n : Net (Hosts D))
      → verified_email s ≡ o
      → Intact n.state
      → Allowed (by_email D f s o n).0
  unfolding ◌>>=◌ observe
  by_email-Allowed none n e h = create_social-Allowed n h
  by_email-Allowed (some email) n e h =
      let (verified, same) = verified_email_lem s.email_verified s.email email e in
      link_or_new-Allowed email _ _ verified same
        (find_account-Found (λ b. is_same b.email (some email)) n h)

  by_identity-Allowed :
      (r : Reply Account) (n : Net (Hosts D))
      → Found (has_identity s) r n.state
      → Allowed (by_identity D f s r n).0
  by_identity-Allowed (ok a) n (h, found) = returning-Allowed a n (with_identity a found)
  by_identity-Allowed (err e) n h = searched_if (is_no_documents e)
    where
      searched_if :
          (b : Bool) → Allowed ((if b then by_email D f s (verified_email s) else fail e) n).0
      searched_if true = by_email-Allowed (verified_email s) n refl h
      searched_if false = tt

-- Whatever the fates of the calls, a login by a provider that succeeds gets a new account, or one
-- that was there and has this identity, or the address that the provider has verified and no other
-- identity of this provider.
pub find_or_create_host_by_social-Allowed :
    (D : Directory) (f : Drawn) (s : SocialIdentity) (n : Net (Hosts D))
    → Allowed D f s n.state.accounts (find_or_create_host_by_social D f s n).0
unfolding find_or_create_host_by_social ◌>>=◌ observe
find_or_create_host_by_social-Allowed D f s n =
    by_identity-Allowed D f s n.state.accounts _ _
      (find_account-Found D f s n.state.accounts (has_identity s) n refl)
