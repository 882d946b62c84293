-- ===== src/Subscription/Reminders/Once.antt =====
-- `RunRenewalReminders` of internal/modules/billing/service/billing_service.go: nobody is reminded
-- twice.
use mathlib.Core.Option
use queuebuzz.Prelude.{
  ℕ, ◌≡◌, refl, sym, ap, subst, ◌∙◌, Bool, true, false, inl, inr, Option, none, some, List, [], ◌∷◌,
  All, any, is_some, only, get_or, if◌then◌else◌, ◌==◌, Bool-cases, Option-cases, arith,
}
use queuebuzz.Net.{ok, ◌>>=◌, ◌>>◌, calm}
use queuebuzz.Queue.World.{Backend, World}
use queuebuzz.Queue.Domain.{Host}
use queuebuzz.Billing.{get_host}
use queuebuzz.Subscription.Domain.{Plan, Subscription, Mail}
use queuebuzz.Subscription.Plans.{find_plan, get_plan_by_id, is_standing}
use queuebuzz.Subscription.Events.{get_host_email, send_mail}
use queuebuzz.Subscription.Reminders.{
  is_due, with_reminder, reminder, remind, remind_each, run_renewal_reminders,
}

abbrev due : ℕ → Option Subscription → Bool
due now none = false
due now (some s) = is_due now s

not_due : (now : ℕ) (o : Option Subscription) → due now (Option.map (with_reminder now) o) ≡ false
not_due now none = refl
not_due now (some s) = elim (Bool-cases (is_standing s)) [
  | inl x ↦ rw x (ground arith)
  | inr x ↦ ground (arith, x)
]

module _ (B : Backend) where
  abbrev email_of : Option Host → Option ℕ
  email_of none = none
  email_of (some h) = h.email

  -- The mail, if the address and the plan are known.
  abbrev mail_for : Subscription → Option ℕ → Option Plan → Option Mail
  mail_for s none p = none
  mail_for s (some to) none = none
  mail_for s (some to) (some p) = some (reminder s p to)

  abbrev mail_of : World B → Subscription → Option Mail
  mail_of w s =
      mail_for s (email_of (B.hosts.find_one s.host_id w.hosts)) (find_plan B s.plan_id w.plans)

  abbrev sent : Subscription → Option Mail → World B → World B
  sent s none w = w
  sent s (some m) w = record w {
    outbox = m ∷ w.outbox;
    subscriptions = B.subscriptions.update_one s.host_id (with_reminder w.now) w.subscriptions;
  }

  remind-sent :
      (s : Subscription) (w : World B)
      → remind B s (calm w) ≡ (ok tt, calm (sent s (mail_of w s) w))
  unfolding remind get_host_email get_host send_mail get_plan_by_id calm
  remind-sent s w = elim (Option-cases (B.hosts.find_one s.host_id w.hosts)) [
    | inl x ↦ rw x refl
    | inr (h, x) ↦ rw x (elim (Option-cases h.email) [
      | inl y ↦ rw y refl
      | inr (to, y) ↦ rw y (elim (Option-cases (find_plan B s.plan_id w.plans)) [
        | inl z ↦ rw z refl
        | inr (p, z) ↦ rw z refl
      ])
    ])
  ]

  abbrev sents : List Subscription → World B → World B
  sents [] w = w
  sents (s ∷ ss) w = sents ss (sent s (mail_of w s) w)

  remind_each-sents :
      (ss : List Subscription) (w : World B)
      → remind_each B ss (calm w) ≡ (ok tt, calm (sents ss w))
  unfolding remind_each ◌>>◌ ◌>>=◌
  remind_each-sents [] w = refl
  remind_each-sents (s ∷ ss) w =
      rw (remind-sent s w) (remind_each-sents ss (sent s (mail_of w s) w))

  abbrev due_list : World B → List Subscription
  due_list w = B.subscriptions.find (is_due w.now) w.subscriptions

  run-sents :
      (w : World B) → run_renewal_reminders B (calm w) ≡ (ok tt, calm (sents (due_list w) w))
  unfolding run_renewal_reminders calm
  run-sents w = remind_each-sents (due_list w) w

  -- The document of a host is due.
  abbrev is_due_at : ℕ → World B → Bool
  is_due_at h u = due u.now (B.subscriptions.find_one h u.subscriptions)

  with_reminder-key : (now : ℕ) (s : Subscription) → (with_reminder now s).host_id ≡ s.host_id
  with_reminder-key now s = elim (Bool-cases (is_standing s)) [
    | inl x ↦ rw x refl
    | inr x ↦ rw x refl
  ]

  find-sent :
      (s : Subscription) (m : Mail) (u : World B) (h : ℕ)
      → B.subscriptions.find_one h (sent s (some m) u).subscriptions ≡ (
          if s.host_id == h
          then Option.map (with_reminder u.now) (B.subscriptions.find_one h u.subscriptions)
          else B.subscriptions.find_one h u.subscriptions)
  find-sent s m u h =
      B.subscriptions.find_one-update_one s.host_id h (with_reminder u.now) u.subscriptions
        (with_reminder-key u.now)

  sent-marks :
      (s : Subscription) (m : Mail) (u : World B) (h : ℕ)
      → (s.host_id == h) ≡ true
      → is_due_at h (sent s (some m) u) ≡ false
  sent-marks s m u h x =
      rw (find-sent s m u h, x) (not_due u.now (B.subscriptions.find_one h u.subscriptions))

  sent-keeps :
      (s : Subscription) (o : Option Mail) (u : World B) (h : ℕ)
      → is_due_at h u ≡ false
      → is_due_at h (sent s o u) ≡ false
  sent-keeps s none u h x = x
  sent-keeps s (some m) u h x = elim (Bool-cases (s.host_id == h)) [
    | inl y ↦ sent-marks s m u h y
    | inr y ↦ rw (find-sent s m u h, y) x
  ]

  sents-keeps :
      (ss : List Subscription) (u : World B) (h : ℕ)
      → is_due_at h u ≡ false
      → is_due_at h (sents ss u) ≡ false
  sents-keeps [] u h x = x
  sents-keeps (s ∷ ss) u h x = sents-keeps ss _ h (sent-keeps s (mail_of u s) u h x)

  mail_of-sent :
      (s t : Subscription) (o : Option Mail) (u : World B) → mail_of (sent s o u) t ≡ mail_of u t
  mail_of-sent s t none u = refl
  mail_of-sent s t (some m) u = refl

  mail_of-sents :
      (ss : List Subscription) (t : Subscription) (u : World B)
      → mail_of (sents ss u) t ≡ mail_of u t
  mail_of-sents [] t u = refl
  mail_of-sents (s ∷ ss) t u = mail_of-sents ss t _ ∙ mail_of-sent s t (mail_of u s) u

  -- A host on the list whose address and plan are known is not due afterwards.
  sents-marks :
      (t : Subscription) (m : Mail) (h : ℕ) (ss : List Subscription) (u : World B)
      → any (λ d. d.host_id == h) ss ≡ true
      → All (λ d. (d.host_id == h) ≡ true → d ≡ t) ss
      → mail_of u t ≡ some m
      → is_due_at h (sents ss u) ≡ false
  sents-marks t m h [] u x same k = absurd (ground (arith, x))
  sents-marks t m h (d ∷ ss) u x (same, rest) k = elim (Bool-cases (d.host_id == h)) [
    | inl y ↦ sents-keeps ss _ h (
        subst (λ o. is_due_at h (sent d o u) ≡ false)
          (sym (subst (λ e. mail_of u e ≡ some m) (sym (same y)) k)) (sent-marks d m u h y))
    | inr y ↦ sents-marks t m h ss _ (listed y x) rest (mail_of-sent d t (mail_of u d) u ∙ k)
  ]
    where
      listed :
          (d.host_id == h) ≡ false
          → any (λ e. e.host_id == h) (d ∷ ss) ≡ true
          → any (λ e. e.host_id == h) ss ≡ true
      listed y z = sym (ap (λ b. if b then true else any (λ e. e.host_id == h) ss) y) ∙ z

  -- What is due afterwards was so before, and is the same.
  sent-due :
      (s : Subscription) (o : Option Mail) (u : World B) (h : ℕ) (t : Subscription)
      → B.subscriptions.find_one h (sent s o u).subscriptions ≡ some t
      → is_due (sent s o u).now t ≡ true
      → (B.subscriptions.find_one h u.subscriptions ≡ some t) × (is_due u.now t ≡ true)
  sent-due s none u h t e x = (e, x)
  sent-due s (some m) u h t e x = elim (Bool-cases (s.host_id == h)) [
    | inl y ↦ absurd (ground (arith, sym x ∙ sym (ap (due u.now) e) ∙ sent-marks s m u h y))
    | inr y ↦
        (subst (λ b. (if b then marked else kept) ≡ some t) y (sym (find-sent s m u h) ∙ e), x)
  ]
    where
      marked : Option Subscription
      marked = Option.map (with_reminder u.now) (B.subscriptions.find_one h u.subscriptions)

      kept : Option Subscription
      kept = B.subscriptions.find_one h u.subscriptions

  sents-due :
      (ss : List Subscription) (u : World B) (h : ℕ) (t : Subscription)
      → B.subscriptions.find_one h (sents ss u).subscriptions ≡ some t
      → is_due (sents ss u).now t ≡ true
      → (B.subscriptions.find_one h u.subscriptions ≡ some t) × (is_due u.now t ≡ true)
  sents-due [] u h t e x = (e, x)
  sents-due (s ∷ ss) u h t e x =
      let (later, still) = sents-due ss _ h t e x in sent-due s (mail_of u s) u h t later still

  abbrev Sound : World B → List Subscription → Type 0
  Sound w ss =
      All
        (λ d.
          (B.subscriptions.find_one d.host_id w.subscriptions ≡ some d) × (is_due w.now d ≡ true))
        ss

  Sound-same :
      (w : World B) (h : ℕ) (t : Subscription) (ss : List Subscription)
      → B.subscriptions.find_one h w.subscriptions ≡ some t
      → Sound w ss
      → All (λ d. (d.host_id == h) ≡ true → d ≡ t) ss
  Sound-same w h t [] e sound = tt
  Sound-same w h t (d ∷ ss) e ((stored, x), rest) = (
    (λ y.
        let equal : d.host_id ≡ h = ground (arith, y) in
        ap (λ o. get_or o t)
          (sym (subst (λ i. B.subscriptions.find_one i w.subscriptions ≡ some d) equal stored)
            ∙ e)),
    Sound-same w h t ss e rest,
  )

  -- Whoever is due after a run has no known address or plan.
  due-unknown :
      (w : World B) (t : Subscription)
      → let v = sents (due_list w) w in
        B.subscriptions.find_one t.host_id v.subscriptions ≡ some t
        → is_due v.now t ≡ true
        → mail_of v t ≡ none
  due-unknown w t e x = elim (Option-cases (mail_of (sents (due_list w) w) t)) [
    | inl y ↦ y
    | inr (m, y) ↦
        let (stored, before) = sents-due (due_list w) w t.host_id t e x in
        let listed : any (λ d. d.host_id == t.host_id) (due_list w) ≡ true =
          B.subscriptions.any-find t.host_id (is_due w.now) w.subscriptions
          ∙ ap (λ o. is_some (only (is_due w.now) o)) stored
          ∙ ap (λ b. is_some (if b then some t else none)) before in
        absurd (
          ground (
            arith,
            sym x
                ∙ sym (ap (due (sents (due_list w) w).now) e)
                ∙ sents-marks t m t.host_id (due_list w) w listed
                    (Sound-same w t.host_id t (due_list w) stored
                      (B.subscriptions.find_sound (is_due w.now) w.subscriptions))
                    (sym (mail_of-sents (due_list w) t w) ∙ y),
          ))
  ]

  sents-unknown :
      (ss : List Subscription) (u : World B) → All (λ d. mail_of u d ≡ none) ss → sents ss u ≡ u
  sents-unknown [] u h = refl
  sents-unknown (d ∷ ss) u (h, hs) =
      subst (λ o. sents ss (sent d o u) ≡ u) (sym h) (sents-unknown ss u hs)

  Sound-unknown :
      (w : World B) (ss : List Subscription)
      → Sound (sents (due_list w) w) ss
      → All (λ d. mail_of (sents (due_list w) w) d ≡ none) ss
  Sound-unknown w [] sound = tt
  Sound-unknown w (d ∷ ss) ((stored, x), rest) = (due-unknown w d stored x, Sound-unknown w ss rest)

  -- When every call is answered, the reminders succeed, and to run them again at the same time
  -- sends nothing and changes nothing.
  pub run_renewal_reminders-once :
      (w : World B)
      → let r = run_renewal_reminders B (calm w) in
        (r.0 ≡ ok tt) × (run_renewal_reminders B r.1 ≡ (ok tt, r.1))
  run_renewal_reminders-once w = rw (run-sents w) (
    refl,
    run-sents (sents (due_list w) w)
        ∙ ap (λ u. (ok tt, calm u))
            (sents-unknown (due_list (sents (due_list w) w)) _ (
              Sound-unknown w (due_list (sents (due_list w) w)) (
                B.subscriptions.find_sound (is_due (sents (due_list w) w).now)
                  (sents (due_list w) w).subscriptions))),
  )
