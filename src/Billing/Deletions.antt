-- ===== src/Billing/Deletions.antt =====
-- internal/modules/billing/service/billing_service.go: deleting many queues at once and one by one.
use queuebuzz.Prelude.{
  ℕ, ◌-◌, ◌≡◌, refl, sym, ◌∙◌, ap, ap₂, Bool, true, false, Bool-cases, inl, inr, some, List, [],
  ◌∷◌, length, keep, if◌then◌else◌, ==_self, arith,
}
use queuebuzz.Net.{ok, pure, ◌>>◌, calm}
use queuebuzz.Queue.Domain.{Host}
use queuebuzz.Queue.World.{Backend, World, Call}
use queuebuzz.Queue.Lookup.{or_missing}
use queuebuzz.Billing.{
  Taken, is_nothing, take_off_host, take_off, taken, taken_bulk, is_this_month, get_host,
  decrement_monthly_queue_count, decrement_monthly_queue_count_bulk,
}

-- One deletion after the other.
abbrev pub taken_each : List ℕ → Host → Host
taken_each [] h = h
taken_each (c ∷ cs) h = taken_each cs (take_off (taken c h) h)

abbrev with_counts : Host → ℕ → ℕ → Host
with_counts h total monthly = record h { total_queue_count = total; monthly_queue_count = monthly }

abbrev one_if : Bool → ℕ
one_if b = if b then 1 else 0

with_counts_zero :
    (h : Host) (a b : ℕ)
    → a ≡ 0
    → b ≡ 0
    → with_counts h (h.total_queue_count - a) (h.monthly_queue_count - b) ≡ h
with_counts_zero h a b x y = ap₂ (with_counts h) (omega (arith, x)) (omega (arith, y))

-- The cap on an amount does not matter to the difference.
take_off-bulk_counts :
    (cs : List ℕ) (h : Host)
    → take_off (taken_bulk cs h) h
      ≡ with_counts h
          (h.total_queue_count - length cs)
          (h.monthly_queue_count - length (keep (is_this_month h) cs))
unfolding take_off taken_bulk
take_off-bulk_counts cs h = ap₂ (with_counts h) (ground arith) (ground arith)

take_off-counts :
    (c : ℕ) (h : Host)
    → take_off (taken c h) h
      ≡ with_counts h (h.total_queue_count - 1) (h.monthly_queue_count - one_if (is_this_month h c))
unfolding take_off taken
take_off-counts c h = ap₂ (with_counts h) (ground arith) (ground arith)

-- The amounts that are taken together are those that are taken one by one.
pub take_off-taken_bulk : (cs : List ℕ) (h : Host) → take_off (taken_bulk cs h) h ≡ taken_each cs h
take_off-taken_bulk [] h = take_off-bulk_counts [] h ∙ with_counts_zero h 0 0 refl refl
take_off-taken_bulk (c ∷ cs) h =
    take_off-bulk_counts (c ∷ cs) h
    ∙ ap₂ (with_counts h) (omega arith) (less (is_this_month h c) refl)
    ∙ sym (
        take_off-bulk_counts cs (
          with_counts h (h.total_queue_count - 1)
            (h.monthly_queue_count - one_if (is_this_month h c))))
    ∙ ap (λ g. take_off (taken_bulk cs g) g) (sym (take_off-counts c h))
    ∙ take_off-taken_bulk cs (take_off (taken c h) h)
  where
    less :
        (b : Bool)
        → is_this_month h c ≡ b
        → h.monthly_queue_count - length (keep (is_this_month h) (c ∷ cs))
          ≡ h.monthly_queue_count - one_if b - length (keep (is_this_month h) cs)
    less true e = rw e (omega arith)
    less false e = rw e (omega arith)

pub take_off_nothing : (t : Taken) (h : Host) → is_nothing t ≡ true → take_off t h ≡ h
unfolding take_off
take_off_nothing t h e = with_counts_zero h t.total t.monthly (ground arith) (ground arith)

module _ (B : Backend) where
  pub take_off_host-find :
      (h : ℕ) (t : Taken) (d : Host) (w : World B)
      → B.hosts.find_one h w.hosts ≡ some d
      → (v : World B) × (take_off_host B h t (calm w) ≡ (ok tt, calm v))
        × (B.hosts.find_one h v.hosts ≡ some (take_off t d))
  unfolding calm take_off
  take_off_host-find h t d w e = elim (Bool-cases (is_nothing t)) [
    | inl x ↦ (w, rw x refl, e ∙ ap some (sym (take_off_nothing t d x)))
    | inr x ↦ (
      record w { hosts = B.hosts.update_one h (take_off t) w.hosts },
      rw x refl,
      B.hosts.find_one-update_one h h (take_off t) w.hosts (λ d. refl) ∙ rw (==_self h, e) refl,
    )
  ]

  -- One deletion at a time.
  abbrev pub decrement_each : ℕ → List ℕ → Call B (Unit {0})
  decrement_each h [] = pure tt
  decrement_each h (c ∷ cs) = decrement_monthly_queue_count B (some h) c >> decrement_each h cs

  decrement_each-find :
      (h : ℕ) (cs : List ℕ) (d : Host) (w : World B)
      → B.hosts.find_one h w.hosts ≡ some d
      → B.hosts.find_one h (decrement_each h cs (calm w)).1.state.hosts ≡ some (taken_each cs d)
  unfolding decrement_monthly_queue_count get_host calm
  decrement_each-find h [] d w e = e
  decrement_each-find h (c ∷ cs) d w e =
      let (v, run, found) = take_off_host-find h (taken c d) d w e in
      rw (e, or_missing, run) (decrement_each-find h cs (take_off (taken c d) d) v found)

  -- When every call is answered, deleting queues of a host together leaves its document with the
  -- counters that deleting them one by one leaves.
  pub decrement_bulk-each :
      (h : ℕ) (cs : List ℕ) (d : Host) (w : World B)
      → B.hosts.find_one h w.hosts ≡ some d
      → B.hosts.find_one h (decrement_monthly_queue_count_bulk B (some h) cs (calm w)).1.state.hosts
        ≡ B.hosts.find_one h (decrement_each h cs (calm w)).1.state.hosts
  unfolding decrement_monthly_queue_count_bulk get_host calm
  decrement_bulk-each h [] d w e = refl
  decrement_bulk-each h (c ∷ cs) d w e =
      let (v, run, found) = take_off_host-find h (taken_bulk (c ∷ cs) d) d w e in
      rw (e, or_missing, run) found
      ∙ ap some (take_off-taken_bulk (c ∷ cs) d)
      ∙ sym (decrement_each-find h (c ∷ cs) d w e)
