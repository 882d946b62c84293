-- ===== src/Lock.antt =====
-- internal/redis/lock.go: a lock under a key, which holds the random value of its owner. A key may
-- also expire.
use queuebuzz.Prelude.{
  ℕ, ◌≡◌, ◌≢◌, refl, sym, ap, ◌∙◌, ◌⊎◌, inl, inr, Bool, true, false, none, some, List, [], ◌∷◌, All,
  Option-cases, Bool-cases, is_some, if◌then◌else◌, ◌==◌, ==_iff, ==_self,
}
use mathlib.Core.Option
use mathlib.Core.Option.{some-injective}
use queuebuzz.Store.{KeySpace}

pub data Event (K : Type 0) : Type 0 where
  acquires releases : K → ℕ → Event K
  expires : K → Event K

module _ {K : Type 0} (S : KeySpace K ℕ) where
  -- `SET NX`
  unfoldable pub acquire : K → ℕ → S.Keys → Bool × S.Keys
  acquire k v m = if is_some (S.get k m) then (false, m) else (true, S.put k v m)

  -- The script: the key is deleted if it still holds the owner's value.
  unfoldable pub release : K → ℕ → S.Keys → S.Keys
  release k v m = elim (S.get k m) [ none ↦ m | some owner ↦ if owner == v then S.del k m else m ]

  unfoldable pub run : List (Event K) → S.Keys → S.Keys
  run [] m = m
  run (acquires k v ∷ es) m = run es (acquire k v m).1
  run (releases k v ∷ es) m = run es (release k v m)
  run (expires k ∷ es) m = run es (S.del k m)

  -- What does not end the hold of an owner: anything but its own release and the key's expiry.
  abbrev pub Leaves : K → ℕ → Event K → Type 0
  Leaves k v (acquires j u) = Unit {0}
  Leaves k v (releases j u) = (j ≢ k) ⊎ (u ≢ v)
  Leaves k v (expires j) = j ≢ k

  -- The owner's release frees the lock.
  pub release-acquired : (k : K) (v : ℕ) (m : S.Keys) → S.get k (release k v (S.put k v m)) ≡ none
  unfolding release
  release-acquired k v m = rw (release, S.get-put k v m, ==_self v) (S.get-del k (S.put k v m))

  acquire-held :
      (k j : K) (v u : ℕ) (m : S.Keys) → S.get k m ≡ some v → S.get k (acquire j u m).1 ≡ some v
  unfolding acquire
  acquire-held k j v u m h = elim (Option-cases (S.get j m)) [
    | inl x ↦ rw x (
        S.get-put_ne j k u m
          (λ e. absurd (Option.none-ne-some v (sym x ∙ ap (λ i. S.get i m) e ∙ h)))
        ∙ h)
    | inr (o, x) ↦ rw x h
  ]

  release-held :
      (k j : K) (v u : ℕ) (m : S.Keys)
      → S.get k m ≡ some v
      → (j ≢ k) ⊎ (u ≢ v)
      → S.get k (release j u m) ≡ some v
  unfolding release
  release-held k j v u m h n = elim (Option-cases (S.get j m)) [
    | inl x ↦ rw (x, release) h
    | inr (o, x) ↦ elim (Bool-cases (o == u)) [
      | inl y ↦ rw (x, release, y) (S.get-del_ne j k m (other o x y n) ∙ h)
      | inr y ↦ rw (x, release, y) h
    ]
  ]
    where
      other : (o : ℕ) → S.get j m ≡ some o → (o == u) ≡ true → (j ≢ k) ⊎ (u ≢ v) → j ≢ k
      other o x y (inl n) = n
      other o x y (inr n) =
          λ e. n (sym ((==_iff o u).0 y) ∙ some-injective o v (sym x ∙ ap (λ i. S.get i m) e ∙ h))

  -- While an owner's key neither expires nor is released by that owner, whatever others do, the
  -- key holds the owner's value and nobody acquires the lock.
  pub run-held :
      (k : K) (v u : ℕ) (es : List (Event K)) (m : S.Keys)
      → S.get k m ≡ some v
      → All (Leaves k v) es
      → (S.get k (run es m) ≡ some v) × (acquire k u (run es m) ≡ (false, run es m))
  unfolding run acquire
  run-held k v u [] m h l = (h, rw h refl)
  run-held k v u (acquires j t ∷ es) m h l =
      run-held k v u es (acquire j t m).1 (acquire-held k j v t m h) l.1
  run-held k v u (releases j t ∷ es) m h l =
      run-held k v u es (release j t m) (release-held k j v t m h l.0) l.1
  run-held k v u (expires j ∷ es) m h l =
      run-held k v u es (S.del j m) (S.get-del_ne j k m l.0 ∙ h) l.1
