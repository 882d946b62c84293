-- ===== src/Tokens/Texts/Numbers.antt =====
-- Numbers that internal/modules/customer/service/recovery_service.go prints by `%d` and scans.
use queuebuzz.Prelude.{
  ℕ, zero, suc, ◌+◌, ◌*◌, ◌/◌, ◌%◌, ◌≤◌, ◌<◌, ◌≡◌, refl, ◌∙◌, ap, Bool, true, false, some, List, [],
  ◌∷◌, ◌==◌, ltb, leb, All, arith, Bool-cases, inl, inr,
}
use queuebuzz.Tokens.Texts.{
  Int64, is_space, is_digit, take_digits, number, scan_int, max_int64, print_from, print_int,
}

-- `10 ^ f`
abbrev bound : ℕ → ℕ
bound zero = 1
bound (suc f) = 10 * bound f

number-print_from :
    (f n : ℕ) (acc : List ℕ) → n < bound f → number 0 (print_from f n acc) ≡ number n acc
number-print_from zero n acc h = ap (λ k. number k acc) (omega (arith, h))
number-print_from (suc f) n acc h = elim (Bool-cases (ltb n 10)) [
  | inl y ↦ rw y (ap (λ k. number k acc) (omega arith))
  | inr y ↦ rw y (
      number-print_from f (n / 10) ((b'0' + n % 10) ∷ acc) (omega (arith, h))
      ∙ ap (λ k. number k acc) (omega arith))
]

abbrev pub IsDigits : List ℕ → Type 0
IsDigits ds = All (λ d. is_digit d ≡ true) ds

print_from-IsDigits : (f n : ℕ) (acc : List ℕ) → IsDigits acc → IsDigits (print_from f n acc)
print_from-IsDigits zero n acc h = h
print_from-IsDigits (suc f) n acc h = elim (Bool-cases (ltb n 10)) [
  | inl y ↦ rw y (ground (arith, y), h)
  | inr y ↦ rw y (print_from-IsDigits f (n / 10) ((b'0' + n % 10) ∷ acc) (ground arith, h))
]

take_digits-IsDigits : (ds : List ℕ) → IsDigits ds → take_digits ds ≡ ds
take_digits-IsDigits [] h = refl
take_digits-IsDigits (d ∷ ds) (h, hs) = rw (h, take_digits-IsDigits ds hs) refl

abbrev starts : List ℕ → Bool
starts [] = false
starts (d ∷ ds) = true

print_from-starts :
    (f n : ℕ) (acc : List ℕ) → starts acc ≡ true → starts (print_from f n acc) ≡ true
print_from-starts zero n acc h = h
print_from-starts (suc f) n acc h = elim (Bool-cases (ltb n 10)) [
  | inl y ↦ rw y refl
  | inr y ↦ rw y (print_from-starts f (n / 10) ((b'0' + n % 10) ∷ acc) refl)
]

print_int-starts : (n : ℕ) → starts (print_int n) ≡ true
print_int-starts n = elim (Bool-cases (ltb n 10)) [
  | inl y ↦ rw y refl
  | inr y ↦ rw y (print_from-starts 18 (n / 10) ((b'0' + n % 10) ∷ []) refl)
]

digit_shape :
    (d : ℕ)
    → is_digit d ≡ true
    → (is_space d ≡ false) × ((d == b'-') ≡ false) × ((d == b'+') ≡ false)
digit_shape d h = (ground arith, ground arith, ground arith)

-- Digits are scanned as the number that they print.
scan_int-IsDigits :
    (ds : List ℕ)
    → IsDigits ds
    → starts ds ≡ true
    → leb (number 0 ds) max_int64 ≡ true
    → scan_int ds ≡ some (Int64.positive (number 0 ds))
scan_int-IsDigits [] h s le = absurd (ground (arith, s))
scan_int-IsDigits (d ∷ ds) (h, hs) s le =
    let (space, minus, plus) = digit_shape d h in
    rw (space, minus, plus, h, take_digits-IsDigits ds hs) (rw le refl)

-- A number below `2 ^ 63` that is printed is scanned back.
pub scan_int-print_int : (n : ℕ) → n ≤ max_int64 → scan_int (print_int n) ≡ some (Int64.positive n)
scan_int-print_int n h =
    let same : number 0 (print_int n) ≡ n = number-print_from 19 n [] (omega (arith, h)) in
    scan_int-IsDigits (print_int n) (print_from-IsDigits 19 n [] tt) (print_int-starts n)
      (rw same (ground (arith, h)))
    ∙ ap (λ k. some (Int64.positive k)) same

pub print_int-IsDigits : (n : ℕ) → IsDigits (print_int n)
print_int-IsDigits n = print_from-IsDigits 19 n [] tt
