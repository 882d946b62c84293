-- ===== src/Tokens/Recovery/Dispatch.antt =====
-- `DispatchRecoveryEmail` of internal/modules/customer/service/recovery_service.go: how many mails a
-- guest gets.
use mathlib.Core.Option
use queuebuzz.Prelude.{
  ℕ, suc, ◌≤◌, ◌≡◌, refl, Bool, true, false, Option, none, some, List, [], ◌∷◌, length, ◌⊎◌, inl,
  inr, if◌then◌else◌, ==_self, arith, sym, ◌∙◌,
}
use queuebuzz.Net.{Fate, Reply, ok, err, Error, ◌>>=◌, observe, calm}
use queuebuzz.Net.Keeps.{
  Hoare, bind_rule, then_rule, request_rule, attempt_rule, Keeps, Keeps-then, Keeps-request,
}
use queuebuzz.Tokens.Recovery.{
  Hashes, Redis, Recoveries, Recipient, is_unmarked, mark_sent, unmark_sent, generate_token,
  send_recovery, send_or_unmark, dispatch_marked, dispatch_recovery_email,
}

-- One request for the mail: the random bytes, if there are any, and the fates of its calls.
pub record Request : Type 0 where
  pub bytes : Option (List ℕ)
  pub fates : List Fate

marked_after :
    (t : ℕ) (o : Option Recipient)
    → is_unmarked (Option.map {A = Recipient} (λ e. record e { recovery_email_sent_at = some t }) o)
      ≡ false
marked_after t none = refl
marked_after t (some e) = refl

module _ (H : Hashes) (R : Redis) (i : ℕ) (entry queue : List ℕ) where
  unfoldable pub dispatch_all : List Request → Recoveries R → Recoveries R
  dispatch_all [] s = s
  dispatch_all (r ∷ rs) s =
      dispatch_all rs
        (dispatch_recovery_email H R i r.bytes entry queue
          (record (calm s) { fates = r.fates })).1.state

  -- No mail beyond `k`, or just one and then the entry is marked.
  abbrev Few : ℕ → Recoveries R → Type 0
  Few k s = length s.mails ≤ k

  abbrev IsMarked : Recoveries R → Type 0
  IsMarked s = is_unmarked (R.entries.find_one i s.entries) ≡ false

  abbrev Once : ℕ → Recoveries R → Type 0
  Once k s = Few k s ⊎ (Few (suc k) s × IsMarked s)

  module _ (k : ℕ) where
    abbrev Marked : Reply Bool → Recoveries R → Type 0
    Marked (ok true) s = Few k s × IsMarked s
    Marked (ok false) s = Once k s
    Marked (err e) s = Once k s

    marks :
        (s : Recoveries R)
        → IsMarked (record s {
          entries =
              R.entries.update_one i
                (λ e. record e { recovery_email_sent_at = some s.now })
                s.entries;
        })
    marks s =
        rw
          (
            R.entries.find_one-update_one i i
                (λ e. record e { recovery_email_sent_at = some s.now }) s.entries (λ d. refl),
            ==_self i,
          )
          (marked_after s.now (R.entries.find_one i s.entries))

    Once-Few :
        (s : Recoveries R)
        → is_unmarked (R.entries.find_one i s.entries) ≡ true
        → Once k s
        → Few k s
    Once-Few s x (inl few) = few
    Once-Few s x (inr (few, marked)) = absurd (ground (arith, sym x ∙ marked))

    abbrev marking : Bool → Recoveries R → Reply Bool × Recoveries R
    marking b s =
        if b
        then (
          ok true,
          record s {
            entries =
                R.entries.update_one i (λ e. record e { recovery_email_sent_at = some s.now })
                  s.entries;
          },
        )
        else (ok false, s)

    marking-Marked :
        (b : Bool) (s : Recoveries R)
        → is_unmarked (R.entries.find_one i s.entries) ≡ b
        → Once k s
        → Marked (marking b s).0 (marking b s).1 × Once k (marking b s).1
    marking-Marked true s x h = ((Once-Few s x h, marks s), inl (Once-Few s x h))
    marking-Marked false s x h = (h, h)

    mark_sent-Marked : Hoare (Once k) (mark_sent H R i) Marked
    unfolding mark_sent
    mark_sent-Marked =
        request_rule (Once k) Marked _ (λ s h. (marking-Marked _ s refl h).0)
          (λ s h. (h, (marking-Marked _ s refl h).1))

    -- Making a token changes neither the mails nor the marks.
    generate_token-Keeps :
        (bytes : Option (List ℕ))
        → Keeps (λ s. Few k s × IsMarked s) (generate_token H R bytes entry queue)
    unfolding generate_token
    generate_token-Keeps none = λ n h. h
    generate_token-Keeps (some raw) =
        Keeps-then (λ s. Few k s × IsMarked s) _ _ (Keeps-request _ _ (λ s h. h)) (λ n h. h)

    send_or_unmark-Once :
        (token : Reply (List ℕ))
        → Hoare (λ s. Few k s × IsMarked s) (send_or_unmark H R i token) (λ r. Once k)
    unfolding send_recovery unmark_sent
    send_or_unmark-Once (ok token) = λ n (few, marked). inr (omega (arith, few), marked)
    send_or_unmark-Once (err e) =
        then_rule _ (λ r. Few k) (λ r. Once k) _ _
          (attempt_rule _ (λ r. Few k) (λ r. Few k) _
            (request_rule _ (λ r. Few k) _ (λ s h. h.0) (λ s h. (h.0, h.0))) (λ a s h. h)
            (λ e s h. h))
          (λ a n h. inl h) (λ e s h. inl h)

    dispatch_marked-Once :
        (bytes : Option (List ℕ)) (b : Bool)
        → Hoare (Marked (ok b)) (dispatch_marked H R i bytes entry queue b) (λ r. Once k)
    unfolding ◌>>=◌ observe
    dispatch_marked-Once bytes false = λ n h. h
    dispatch_marked-Once bytes true = λ n h.
        send_or_unmark-Once (generate_token H R bytes entry queue n).0 _
          (generate_token-Keeps bytes n h)

    Marked-err : (e : Error) (s : Recoveries R) → Marked (err e) s → Once k s
    Marked-err e s h = h

    dispatch-Once :
        (bytes : Option (List ℕ)) → Keeps (Once k) (dispatch_recovery_email H R i bytes entry queue)
    unfolding dispatch_recovery_email
    dispatch-Once bytes =
        bind_rule (Once k) Marked (λ r. Once k) _ _ mark_sent-Marked (dispatch_marked-Once bytes)
          Marked-err

    dispatch_all-Once :
        (rs : List Request) (s : Recoveries R) → Once k s → Once k (dispatch_all rs s)
    unfolding dispatch_all calm
    dispatch_all-Once [] s h = h
    dispatch_all-Once (r ∷ rs) s h =
        dispatch_all-Once rs _ (dispatch-Once r.bytes (record (calm s) { fates = r.fates }) h)

    Once-length : (s : Recoveries R) → Once k s → length s.mails ≤ suc k
    Once-length s (inl few) = omega (arith, few)
    Once-length s (inr (few, marked)) = few

  -- However often the mail is asked for, and whatever the fates of the calls, an entry gets at most
  -- one.
  pub dispatch_recovery_email-once :
      (rs : List Request) (s : Recoveries R)
      → length (dispatch_all rs s).mails ≤ suc (length s.mails)
  dispatch_recovery_email-once rs s =
      Once-length (length s.mails) (dispatch_all rs s)
        (dispatch_all-Once (length s.mails) rs s (inl (omega arith)))
