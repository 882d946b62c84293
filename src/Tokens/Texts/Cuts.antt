-- ===== src/Tokens/Texts/Cuts.antt =====
-- Cutting a text at a separator that one of its parts lacks; these are the splits of
-- internal/modules/customer/service/recovery_service.go.
use queuebuzz.Prelude.{ℕ, ◌≡◌, refl, false, none, some, List, [], ◌∷◌, ◌++◌, ◌==◌, ==_self, All}
use queuebuzz.Tokens.Texts.{cut, cut_last, split}

-- A text without the byte `c`.
abbrev pub Lacks : ℕ → List ℕ → Type 0
Lacks c xs = All (λ x. (x == c) ≡ false) xs

pub cut-append : (c : ℕ) (xs ys : List ℕ) → Lacks c xs → cut c (xs ++ c ∷ ys) ≡ some (xs, ys)
cut-append c [] ys h = rw (==_self c) refl
cut-append c (x ∷ xs) ys (h, hs) = rw (h, cut-append c xs ys hs) refl

cut_last-Lacks : (c : ℕ) (ys : List ℕ) → Lacks c ys → cut_last c ys ≡ none
cut_last-Lacks c [] h = refl
cut_last-Lacks c (y ∷ ys) (h, hs) = rw (cut_last-Lacks c ys hs, h) refl

pub cut_last-append :
    (c : ℕ) (xs ys : List ℕ) → Lacks c ys → cut_last c (xs ++ c ∷ ys) ≡ some (xs, ys)
cut_last-append c [] ys h = rw (cut_last-Lacks c ys h, ==_self c) refl
cut_last-append c (x ∷ xs) ys h = rw (cut_last-append c xs ys h) refl

pub split-Lacks : (c : ℕ) (xs : List ℕ) → Lacks c xs → split c xs ≡ xs ∷ []
split-Lacks c [] h = refl
split-Lacks c (x ∷ xs) (h, hs) = rw (h, split-Lacks c xs hs) refl

pub split-append : (c : ℕ) (xs ys : List ℕ) → Lacks c xs → split c (xs ++ c ∷ ys) ≡ xs ∷ split c ys
split-append c [] ys h = rw (==_self c) refl
split-append c (x ∷ xs) ys (h, hs) = rw (h, split-append c xs ys hs) refl
