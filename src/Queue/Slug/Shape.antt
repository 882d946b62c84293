-- ===== src/Queue/Slug/Shape.antt =====
-- `IsValidSlug` of internal/modules/queue/service/service.go, and what its comment says of slugs.
use queuebuzz.Prelude.{
  ℕ, suc, ◌-◌, ◌≡◌, refl, ap, ◌∙◌, Bool, true, false, ◌&&◌, ◌||◌, List, [], ◌∷◌, leb, ◌==◌, length,
  arith,
}
use queuebuzz.Queue.Slug.{is_alnum, is_slug_char, matches_rest, is_valid_slug}

abbrev pub every : (ℕ → Bool) → List ℕ → Bool
every p [] = true
every p (c ∷ cs) = p c && every p cs

abbrev pub starts_well : List ℕ → Bool
starts_well [] = false
starts_well (c ∷ cs) = is_alnum c

abbrev pub ends_well : List ℕ → Bool
ends_well [] = false
ends_well (c ∷ []) = is_alnum c
ends_well (c ∷ d ∷ ds) = ends_well (d ∷ ds)

abbrev pub is_rest : ℕ → ℕ → List ℕ → Bool
is_rest lo hi cs =
    leb (suc lo) (length cs)
    && (leb (length cs) (suc hi) && (every is_slug_char cs && ends_well cs))

-- One more character within the bounds, over the tests of the characters.
one_more :
    (lo hi n : ℕ) (x s a b : Bool)
    → (((lo == 0) && (x && false))
        || (leb 1 hi
            && (s && (leb (suc (lo - 1)) (suc n) && (leb (suc n) (suc (hi - 1)) && (a && b))))))
      ≡ (leb (suc lo) (suc (suc n)) && (leb (suc (suc n)) (suc hi) && ((s && a) && b)))
one_more lo hi n x s a b = ground arith

matches_rest-is_rest : (lo hi : ℕ) (cs : List ℕ) → matches_rest lo hi cs ≡ is_rest lo hi cs
matches_rest-is_rest lo hi [] = ground arith
matches_rest-is_rest lo hi (c ∷ []) = ground arith
matches_rest-is_rest lo hi (c ∷ d ∷ ds) =
    ap (λ m. ((lo == 0) && (is_alnum c && false)) || (leb 1 hi && (is_slug_char c && m)))
      (matches_rest-is_rest (lo - 1) (hi - 1) (d ∷ ds))
    ∙ one_more lo hi (length ds) (is_alnum c) (is_slug_char c) (every is_slug_char (d ∷ ds))
        (ends_well (d ∷ ds))

-- A slug is valid exactly if it has 3 to 30 characters, all of them lowercase letters, digits or
-- hyphens, and begins and ends with a letter or a digit.
is_valid_slug-shape :
    (s : List ℕ)
    → is_valid_slug s ≡ (
        leb 3 (length s)
        && (leb (length s) 30 && (every is_slug_char s && (starts_well s && ends_well s))))
unfolding is_valid_slug
is_valid_slug-shape [] = refl
is_valid_slug-shape (c ∷ []) = ground arith
is_valid_slug-shape (c ∷ d ∷ ds) = rw (matches_rest-is_rest 1 28 (d ∷ ds)) (ground arith)
