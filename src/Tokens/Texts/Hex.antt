-- ===== src/Tokens/Texts/Hex.antt =====
-- The hexadecimal code of the tokens of internal/modules/customer/service/recovery_service.go.
use queuebuzz.Prelude.{
  ℕ, ◌/◌, ◌%◌, ◌<◌, ◌≡◌, refl, ap, false, some, List, [], ◌∷◌, ◌==◌, All, arith,
}
use queuebuzz.Tokens.Texts.{hex_digit, hex_value, encode_hex, decode_hex}

abbrev pub IsBytes : List ℕ → Type 0
IsBytes bs = All (λ b. b < 256) bs

hex_value-hex_digit : (n : ℕ) → n < 16 → hex_value (hex_digit n) ≡ some n
hex_value-hex_digit n h = ground arith

pub decode_hex-encode_hex : (bs : List ℕ) → IsBytes bs → decode_hex (encode_hex bs) ≡ some bs
decode_hex-encode_hex [] h = refl
decode_hex-encode_hex (b ∷ bs) (h, hs) =
    rw
      (
        hex_value-hex_digit (b / 16) (omega (arith, h)),
        hex_value-hex_digit (b % 16) (omega arith),
        decode_hex-encode_hex bs hs,
      )
      (ap (λ x. some (x ∷ bs)) (omega arith))

-- No digit is the dot.
hex_digit-dot : (n : ℕ) → (hex_digit n == b'.') ≡ false
hex_digit-dot n = ground arith

pub encode_hex-dot : (bs : List ℕ) → All (λ x. (x == b'.') ≡ false) (encode_hex bs)
encode_hex-dot [] = tt
encode_hex-dot (b ∷ bs) = (hex_digit-dot (b / 16), (hex_digit-dot (b % 16), encode_hex-dot bs))
