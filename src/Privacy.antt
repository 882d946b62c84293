-- ===== src/Privacy.antt =====
-- `MaskEmail` and `MaskPhone` of internal/helpers/utils.go, on the bytes of a text.
use queuebuzz.Prelude.{
  ℕ, ◌-◌, ◌<◌, ◌≡◌, refl, sym, ap, ◌∙◌, length-append, true, false, Bool-cases, inl, inr, Option,
  none, some, List, [], ◌∷◌, ◌++◌, length, take, drop, ltb, any, if◌then◌else◌, ◌==◌, arith,
}

abbrev pub at_sign : ℕ
at_sign = b'@'

abbrev pub stars : List ℕ
stars = b'*' ∷ b'*' ∷ b'*' ∷ b'*' ∷ []

abbrev pub cons_first : ℕ → List (List ℕ) → List (List ℕ)
cons_first c [] = (c ∷ []) ∷ []
cons_first c (p ∷ ps) = (c ∷ p) ∷ ps

-- `strings.Split(text, "@")`
unfoldable pub split_at : List ℕ → List (List ℕ)
split_at [] = [] ∷ []
split_at (c ∷ cs) = let rest = split_at cs in if c == at_sign then [] ∷ rest else cons_first c rest

abbrev pub masked_name : List ℕ → List ℕ
masked_name name = if ltb 2 (length name) then take 2 name ++ stars else stars

abbrev pub masked_parts : List (List ℕ) → List ℕ
masked_parts (name ∷ domain ∷ []) = masked_name name ++ at_sign ∷ domain
masked_parts _ = b'*' ∷ b'*' ∷ b'*' ∷ []

unfoldable pub mask_email : Option (List ℕ) → Option (List ℕ)
mask_email none = none
mask_email (some []) = none
mask_email (some (c ∷ cs)) = some (masked_parts (split_at (c ∷ cs)))

abbrev pub seven_stars : List ℕ
seven_stars = b'*' ∷ b'*' ∷ b'*' ∷ stars

unfoldable mask_phone : Option (List ℕ) → Option (List ℕ)
mask_phone none = none
mask_phone (some []) = none
mask_phone (some (c ∷ cs)) = some (
    if ltb 4 (length (c ∷ cs))
    then seven_stars ++ drop (length (c ∷ cs) - 3) (c ∷ cs)
    else seven_stars)

abbrev pub NoAt : List ℕ → Type 0
NoAt cs = any (λ c. c == at_sign) cs ≡ false

split_at-NoAt : (cs : List ℕ) → NoAt cs → split_at cs ≡ cs ∷ []
unfolding split_at
split_at-NoAt [] h = refl
split_at-NoAt (c ∷ cs) h = elim (Bool-cases (c == at_sign)) [
  | inl x ↦ ground arith
  | inr x ↦ rw (x, split_at-NoAt cs (ground arith)) refl
]

split_at-parts :
    (name domain : List ℕ)
    → NoAt name
    → NoAt domain
    → split_at (name ++ at_sign ∷ domain) ≡ name ∷ domain ∷ []
unfolding split_at
split_at-parts [] domain h k = rw (split_at-NoAt domain k) refl
split_at-parts (c ∷ cs) domain h k = elim (Bool-cases (c == at_sign)) [
  | inl x ↦ ground arith
  | inr x ↦ rw (x, split_at-parts cs domain (ground arith) k) refl
]

mask_email-parts :
    (name domain : List ℕ)
    → NoAt name
    → NoAt domain
    → mask_email (some (name ++ at_sign ∷ domain)) ≡ some (masked_name name ++ at_sign ∷ domain)
unfolding mask_email
mask_email-parts [] domain h k = rw (split_at-parts [] domain h k) refl
mask_email-parts (c ∷ cs) domain h k = rw (split_at-parts (c ∷ cs) domain h k) refl

-- The mask of an address shows of its name at most the first two bytes, and these only if there
-- are more: two names that are both longer than two bytes and begin with the same two, or neither
-- of them longer, have the same mask at the same domain.
mask_email-same :
    (a b domain : List ℕ)
    → NoAt a
    → NoAt b
    → NoAt domain
    → ltb 2 (length a) ≡ ltb 2 (length b)
    → (ltb 2 (length a) ≡ true → take 2 a ≡ take 2 b)
    → mask_email (some (a ++ at_sign ∷ domain)) ≡ mask_email (some (b ++ at_sign ∷ domain))
mask_email-same a b domain ha hb hd l t =
    mask_email-parts a domain ha hd
    ∙ ap (λ n. some (n ++ at_sign ∷ domain)) name
    ∙ sym (mask_email-parts b domain hb hd)
  where
    name : masked_name a ≡ masked_name b
    name = elim (Bool-cases (ltb 2 (length a))) [
      | inl x ↦ rw (x, sym l ∙ x, t x) refl
      | inr x ↦ rw (x, sym l ∙ x) refl
    ]

drop-append : (a l : List ℕ) → drop (length a) (a ++ l) ≡ l
drop-append [] l = refl
drop-append (x ∷ a) l = drop-append a l

mask_phone-last :
    (a last : List ℕ)
    → length last ≡ 3
    → 1 < length a
    → mask_phone (some (a ++ last)) ≡ some (seven_stars ++ last)
unfolding mask_phone
mask_phone-last [] last h l = ground arith
mask_phone-last (x ∷ a) last h l =
    let long : ltb 4 (length (x ∷ a ++ last)) ≡ true = ground (arith, length-append (x ∷ a) last) in
    let rest : length (x ∷ a ++ last) - 3 ≡ length (x ∷ a) =
      omega (arith, length-append (x ∷ a) last) in
    rw (long, rest) (ap (λ d. some (seven_stars ++ d)) (drop-append (x ∷ a) last))

-- The mask of a number of more than four bytes shows its last three only.
mask_phone-same :
    (a b last : List ℕ)
    → length last ≡ 3
    → 1 < length a
    → 1 < length b
    → mask_phone (some (a ++ last)) ≡ mask_phone (some (b ++ last))
mask_phone-same a b last h la lb = mask_phone-last a last h la ∙ sym (mask_phone-last b last h lb)
