-- ===== src/Store/Concrete/Documents.antt =====
-- A MongoDB collection as the list of its keys beside a function from keys to documents, for
-- internal/modules/queue/service/service.go.
use mathlib.Core.Option
use mathlib.Core.Option.{some-injective}
use queuebuzz.Prelude.{
  ℕ, ◌≡◌, refl, Bool, true, not, Option, none, some, List, [], ◌∷◌, if◌then◌else◌, ◌==◌, ==_iff,
  keep, any, ap, subst, ◌&&◌, only, All, is_some, arith, Bool-cases, inl, inr,
}
use queuebuzz.Store.{Collection}

pub record Docs (D : Type 0) : Type 0 where
  pub keys : List ℕ
  pub doc : ℕ → D

module _ {D : Type 0} (key : D → ℕ) where
  abbrev pub lookup_doc : ℕ → Docs D → Option D
  lookup_doc i c =
      if any (λ k. k == i) c.keys
      then (if key (c.doc i) == i then some (c.doc i) else none)
      else none

  abbrev pub select : (D → Bool) → (ℕ → D) → List ℕ → List D
  select p doc [] = []
  select p doc (k ∷ ks) =
      if (key (doc k) == k) && p (doc k) then doc k ∷ select p doc ks else select p doc ks

  abbrev pub insert_doc : D → Docs D → Option (Docs D)
  insert_doc d c =
      if is_some (lookup_doc (key d) c)
      then none
      else some (record { keys = key d ∷ c.keys; doc = λ i. if i == key d then d else c.doc i })

  abbrev pub update_doc : ℕ → (D → D) → Docs D → Docs D
  update_doc i f c = record c { doc = λ j. if i == j then f (c.doc j) else c.doc j }

  abbrev pub update_docs : (D → Bool) → (D → D) → Docs D → Docs D
  update_docs p f c = record c { doc = λ j. if p (c.doc j) then f (c.doc j) else c.doc j }

  abbrev pub delete_docs : (D → Bool) → Docs D → Docs D
  delete_docs p c = record c { keys = keep (λ k. not (p (c.doc k))) c.keys }

  pub lookup_doc-key : (i : ℕ) (d : D) (c : Docs D) → lookup_doc i c ≡ some d → key d ≡ i
  lookup_doc-key i d c h = ground arith

  pub lookup_doc-update_doc :
      (i j : ℕ) (f : D → D) (c : Docs D)
      → ((d : D) → key (f d) ≡ key d)
      → lookup_doc j (update_doc i f c)
        ≡ (if i == j then Option.map f (lookup_doc j c) else lookup_doc j c)
  lookup_doc-update_doc i j f c k = ground (arith, k (c.doc j))

  pub lookup_doc-update_docs :
      (j : ℕ) (p : D → Bool) (f : D → D) (c : Docs D)
      → ((d : D) → key (f d) ≡ key d)
      → lookup_doc j (update_docs p f c) ≡ Option.map (λ d. if p d then f d else d) (lookup_doc j c)
  lookup_doc-update_docs j p f c k = ground (arith, k (c.doc j))

  any-keep :
      (j : ℕ) (p : ℕ → Bool) (ks : List ℕ)
      → any (λ k. k == j) (keep p ks) ≡ (any (λ k. k == j) ks && p j)
  any-keep j p [] = refl
  any-keep j p (k ∷ ks) = elim (Bool-cases (k == j)) [
    | inl e ↦ ground (arith, any-keep j p ks, ap p ((==_iff k j).0 e))
    | inr e ↦ ground (arith, any-keep j p ks)
  ]

  pub lookup_doc-delete_docs :
      (j : ℕ) (p : D → Bool) (c : Docs D)
      → lookup_doc j (delete_docs p c) ≡ only (λ d. not (p d)) (lookup_doc j c)
  lookup_doc-delete_docs j p c = ground (arith, any-keep j (λ k. not (p (c.doc k))) c.keys)

  abbrev with_doc : D → Docs D → Docs D
  with_doc d c = record { keys = key d ∷ c.keys; doc = λ i. if i == key d then d else c.doc i }

  lookup_doc-with_doc :
      (j : ℕ) (d : D) (c : Docs D)
      → lookup_doc j (with_doc d c) ≡ (if key d == j then some d else lookup_doc j c)
  lookup_doc-with_doc j d c = ground arith

  pub insert_doc_absent :
      (d : D) (c : Docs D)
      → lookup_doc (key d) c ≡ none
      → (c' : Docs D) × (insert_doc d c ≡ some c')
  insert_doc_absent d c h = (with_doc d c, rw h refl)

  pub lookup_doc-insert_doc :
      (j : ℕ) (d : D) (c c' : Docs D)
      → insert_doc d c ≡ some c'
      → lookup_doc j c' ≡ (if key d == j then some d else lookup_doc j c)
  lookup_doc-insert_doc j d c c' h = elim (Bool-cases (is_some (lookup_doc (key d) c))) [
    | inl e ↦ absurd (Option.none-ne-some _ (rw e at h))
    | inr e ↦
        subst (λ x. lookup_doc j x ≡ (if key d == j then some d else lookup_doc j c))
          (some-injective (with_doc d c) c' (rw e at h)) (lookup_doc-with_doc j d c)
  ]

  lookup_listed :
      (k : ℕ) (c : Docs D)
      → any (λ i. i == k) c.keys ≡ true
      → key (c.doc k) ≡ k
      → lookup_doc (key (c.doc k)) c ≡ some (c.doc k)
  lookup_listed k c h e = rw e (ground arith)

  pub select_sound :
      (p : D → Bool) (c : Docs D) (ks : List ℕ)
      → ((k : ℕ) → any (λ i. i == k) ks ≡ true → any (λ i. i == k) c.keys ≡ true)
      → All (λ d. (lookup_doc (key d) c ≡ some d) × (p d ≡ true)) (select p c.doc ks)
  select_sound p c [] h = tt
  select_sound p c (k ∷ ks) h =
      let rest = select_sound p c ks (λ i a. h i (ground arith)) in
      elim (Bool-cases ((key (c.doc k) == k) && p (c.doc k))) [
        | inl e ↦ rw e ((lookup_listed k c (h k (ground arith)) (ground arith), ground arith), rest)
        | inr e ↦ rw e rest
      ]

  pub any-select :
      (j : ℕ) (p : D → Bool) (doc : ℕ → D) (ks : List ℕ)
      → any (λ d. key d == j) (select p doc ks)
        ≡ is_some (only p (lookup_doc j (record { keys = ks; doc = doc })))
  any-select j p doc [] = refl
  any-select j p doc (k ∷ ks) = elim (Bool-cases (k == j)) [
    | inl e ↦ ground (
      arith,
      any-select j p doc ks,
      ap (λ (i : ℕ). key (doc i)) ((==_iff k j).0 e),
      ap (λ (i : ℕ). p (doc i)) ((==_iff k j).0 e),
    )
    | inr e ↦ ground (arith, any-select j p doc ks)
  ]

  abbrev pub collection : Collection key
  collection = record {
    Col = Docs D;
    find_one = lookup_doc;
    find = λ p c. select p c.doc c.keys;
    insert_one = insert_doc;
    update_one = update_doc;
    update_many = update_docs;
    delete_many = delete_docs;
    find_one-key = lookup_doc-key;
    find_one-update_one = lookup_doc-update_doc;
    find_one-update_many = lookup_doc-update_docs;
    find_one-delete_many = lookup_doc-delete_docs;
    find_one-insert_one = lookup_doc-insert_doc;
    find_sound = λ p c. select_sound p c c.keys (λ k h. h);
    any-find = λ j p c. any-select j p c.doc c.keys;
  }
