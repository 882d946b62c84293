-- ===== src/Tokens/Texts.antt =====
-- The texts of tokens: bytes that are cut at a separator as internal/modules/customer/service and
-- internal/modules/auth/service do it, the hexadecimal code of encoding/hex, and `%d` of fmt.
pub mod Cuts
pub mod Hex
pub mod Numbers
use queuebuzz.Prelude.{
  ℕ, zero, suc, ◌+◌, ◌-◌, ◌*◌, ◌/◌, ◌%◌, Bool, true, false, ◌&&◌, ◌||◌, Option, none, some, List,
  [], ◌∷◌, ◌==◌, ltb, leb, if◌then◌else◌,
}

-- Before and after the first separator, and the last one.
abbrev pub cut : ℕ → List ℕ → Option (List ℕ × List ℕ)
cut c [] = none
cut c (x ∷ xs) =
    if x == c then some ([], xs) else elim (cut c xs) [ none ↦ none | some p ↦ some (x ∷ p.0, p.1) ]

abbrev pub cut_last : ℕ → List ℕ → Option (List ℕ × List ℕ)
cut_last c [] = none
cut_last c (x ∷ xs) = elim (cut_last c xs) [
  | none ↦ if x == c then some ([], xs) else none
  | some p ↦ some (x ∷ p.0, p.1)
]

-- `strings.Split`
abbrev push : ℕ → List (List ℕ) → List (List ℕ)
push x [] = (x ∷ []) ∷ []
push x (ys ∷ rest) = (x ∷ ys) ∷ rest

abbrev pub split : ℕ → List ℕ → List (List ℕ)
split c [] = [] ∷ []
split c (x ∷ xs) = if x == c then [] ∷ split c xs else push x (split c xs)

-- `hex.EncodeToString` and `hex.DecodeString`
abbrev pub hex_digit : ℕ → ℕ
hex_digit n = if ltb n 10 then b'0' + n else b'a' + (n - 10)

abbrev pub encode_hex : List ℕ → List ℕ
encode_hex [] = []
encode_hex (b ∷ bs) = hex_digit (b / 16) ∷ hex_digit (b % 16) ∷ encode_hex bs

abbrev pub hex_value : ℕ → Option ℕ
hex_value c =
    if leb b'0' c && leb c b'9'
    then some (c - b'0')
    else (if leb b'a' c && leb c b'f'
        then some (c - b'a' + 10)
        else (if leb b'A' c && leb c b'F' then some (c - b'A' + 10) else none))

abbrev add_byte : Option ℕ → Option ℕ → Option (List ℕ) → Option (List ℕ)
add_byte (some a) (some b) (some rest) = some ((a * 16 + b) ∷ rest)
add_byte _ _ _ = none

abbrev pub decode_hex : List ℕ → Option (List ℕ)
decode_hex [] = some []
decode_hex (x ∷ []) = none
decode_hex (x ∷ y ∷ zs) = add_byte (hex_value x) (hex_value y) (decode_hex zs)

-- What `%d` scans into an int64: spaces, a sign, digits; whatever follows stays.
pub data Int64 : Type 0 where
  positive negative : ℕ → Int64

abbrev is_space : ℕ → Bool
is_space c = (c == 32) || (c == 9) || (c == 11) || (c == 12) || (c == 13)

abbrev pub is_digit : ℕ → Bool
is_digit c = leb b'0' c && leb c b'9'

abbrev pub take_digits : List ℕ → List ℕ
take_digits [] = []
take_digits (c ∷ cs) = if is_digit c then c ∷ take_digits cs else []

abbrev pub number : ℕ → List ℕ → ℕ
number acc [] = acc
number acc (c ∷ cs) = number (acc * 10 + (c - b'0')) cs

abbrev pub within : ℕ → (ℕ → Int64) → ℕ → Option Int64
within most sign n = if leb n most then some (sign n) else none

abbrev pub scan_digits : ℕ → (ℕ → Int64) → List ℕ → Option Int64
scan_digits most sign [] = none
scan_digits most sign (c ∷ cs) = within most sign (number 0 (c ∷ cs))

abbrev pub max_int64 : ℕ
max_int64 = 9223372036854775807

abbrev pub scan_int : List ℕ → Option Int64
scan_int [] = none
scan_int (c ∷ cs) =
    let rest = scan_int cs in
    if is_space c
    then rest
    else (if c == b'-'
        then scan_digits (suc max_int64) Int64.negative (take_digits cs)
        else (if c == b'+'
            then scan_digits max_int64 Int64.positive (take_digits cs)
            else scan_digits max_int64 Int64.positive (take_digits (c ∷ cs))))

-- Printing takes one digit a round, and an int64 has at most 19.
abbrev pub print_from : ℕ → ℕ → List ℕ → List ℕ
print_from zero n acc = acc
print_from (suc more) n acc =
    let rest = print_from more (n / 10) ((b'0' + n % 10) ∷ acc) in
    if ltb n 10 then (b'0' + n) ∷ acc else rest

abbrev pub print_int : ℕ → List ℕ
print_int n = print_from 19 n []
