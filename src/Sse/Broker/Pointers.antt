-- ===== src/Sse/Broker/Pointers.antt =====
-- internal/sse/broker.go: how often a pointer stands in the map of topics, under each operation.
use queuebuzz.Prelude.{
  ℕ, zero, suc, ◌+◌, ◌≤◌, ◌≡◌, refl, some, List, [], ◌∷◌, ◌++◌, arith, ◌==◌, if◌then◌else◌,
  index_of, count, ap,
}
use queuebuzz.Sse.Broker.{
  Subs, subs_of, put_subs, delete_subs, last_or, drop_last, set, swap_remove, store_rest,
}

-- How often a pointer stands in the map.
abbrev pub held : ℕ → Subs → ℕ
held p [] = 0
held p ((t, ps) ∷ m) = count p ps + held p m

pub count-append : (p : ℕ) (xs ys : List ℕ) → count p (xs ++ ys) ≡ count p xs + count p ys
count-append p [] ys = omega arith
count-append p (x ∷ xs) ys = ground (arith, count-append p xs ys)

pub held-put_subs :
    (p topic : ℕ) (ps : List ℕ) (m : Subs)
    → held p (put_subs topic ps m) + count p (subs_of topic m) ≡ held p m + count p ps
unfolding put_subs subs_of
held-put_subs p topic ps [] = omega arith
held-put_subs p topic ps ((t, qs) ∷ m) = ground (arith, held-put_subs p topic ps m)

held-delete_subs :
    (p topic : ℕ) (m : Subs) → held p (delete_subs topic m) + count p (subs_of topic m) ≡ held p m
unfolding delete_subs subs_of
held-delete_subs p topic [] = omega arith
held-delete_subs p topic ((t, qs) ∷ m) = ground (arith, held-delete_subs p topic m)

pub held-store_rest :
    (p topic : ℕ) (ps : List ℕ) (m : Subs)
    → held p (store_rest topic ps m) + count p (subs_of topic m) ≡ held p m + count p ps
unfolding store_rest
held-store_rest p topic [] m = omega (arith, held-delete_subs p topic m)
held-store_rest p topic (x ∷ ps) m = held-put_subs p topic (x ∷ ps) m

pub count-le-held : (p topic : ℕ) (m : Subs) → count p (subs_of topic m) ≤ held p m
count-le-held p topic m = omega (arith, held-delete_subs p topic m)

-- One if the two pointers are the same.
abbrev pub same : ℕ → ℕ → ℕ
same p q = if p == q then 1 else 0

count-set :
    (p i v q : ℕ) (xs : List ℕ)
    → index_of q xs ≡ some i
    → count p (set xs i v) + same q p ≡ count p xs + same v p
count-set p i v q [] h = cc
count-set p zero v q (x ∷ xs) h = ground arith
count-set p (suc i) v q (x ∷ xs) h = ground (arith, count-set p i v q xs)

count-drop_last :
    (p x : ℕ) (xs : List ℕ)
    → count p (drop_last (x ∷ xs)) + same (last_or 0 (x ∷ xs)) p ≡ count p (x ∷ xs)
count-drop_last p x [] = ground arith
count-drop_last p x (y ∷ xs) = ground (arith, count-drop_last p y xs)

last_or-set : (i x v : ℕ) (xs : List ℕ) → last_or 0 (x ∷ xs) ≡ v → last_or 0 (set (x ∷ xs) i v) ≡ v
last_or-set zero x v [] h = refl
last_or-set zero x v (y ∷ xs) h = h
last_or-set (suc i) x v [] h = h
last_or-set (suc zero) x v (y ∷ xs) h = last_or-set zero y v xs h
last_or-set (suc (suc i)) x v (y ∷ xs) h = last_or-set (suc i) y v xs h

-- The swap takes out the pointer that was found, and no other.
pub count-swap_remove :
    (p q i : ℕ) (xs : List ℕ)
    → index_of q xs ≡ some i
    → count p (swap_remove i xs) + same q p ≡ count p xs
unfolding swap_remove
count-swap_remove p q i [] h = cc
count-swap_remove p q zero (x ∷ xs) h =
    let l = last_or 0 (x ∷ xs) in
    omega (
      arith,
      count-set p 0 l q (x ∷ xs) h,
      count-drop_last p l xs,
      ap (λ (v : ℕ). same v p) (last_or-set 0 x l xs refl),
    )
count-swap_remove p q (suc i) (x ∷ xs) h =
    let l = last_or 0 (x ∷ xs) in
    omega (
      arith,
      count-set p (suc i) l q (x ∷ xs) h,
      count-drop_last p x (set xs i l),
      ap (λ (v : ℕ). same v p) (last_or-set (suc i) x l xs refl),
    )
