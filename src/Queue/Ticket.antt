-- ===== src/Queue/Ticket.antt =====
-- Ticket numbers: `NextTicket` of internal/modules/queue/repository/redis.go prints a counter by
-- "Q-%04d", and `ensureTicketCounter` of internal/modules/queue/service/service.go takes the
-- greatest ticket text of a queue and scans it by the same verb. A text is its bytes.
pub mod Recovery
use mathlib.Core.List.{◌++◌ as append}
use queuebuzz.Prelude.{
  ℕ, zero, suc, ◌+◌, ◌-◌, ◌*◌, ◌/◌, ◌%◌, ◌≤◌, ◌<◌, ◌≡◌, refl, Bool, true, false, ◌&&◌, Option, none,
  some, List, [], ◌∷◌, ◌++◌, arith, length, ltb, leb, ◌==◌, if◌then◌else◌,
}

abbrev replicate : ℕ → ℕ → List ℕ
replicate zero a = []
replicate (suc n) a = a ∷ replicate n a

-- The decimal digits of a number; each round takes one, and an int64 has at most 19.
digits_from : ℕ → ℕ → List ℕ → List ℕ
digits_from zero n acc = acc
digits_from (suc more) n acc =
    let rest = digits_from more (n / 10) ((b'0' + n % 10) ∷ acc) in
    if ltb n 10 then (b'0' + n) ∷ acc else rest

decimal : ℕ → List ℕ
unfolding digits_from
decimal n = digits_from 19 n []

-- `%04d`: zeros on the left up to a width of four.
pad_zeros : List ℕ → List ℕ
pad_zeros ds = replicate (4 - length ds) b'0' ++ ds

unfoldable pub format_ticket : ℕ → List ℕ
unfolding decimal pad_zeros
format_ticket n = b'Q' ∷ b'-' ∷ pad_zeros (decimal n)

-- Scanning by `%04d` reads at most four digits.
scan_digits : ℕ → ℕ → List ℕ → ℕ
scan_digits zero acc cs = acc
scan_digits (suc width) acc [] = acc
scan_digits (suc width) acc (c ∷ cs) =
    let rest = scan_digits width (acc * 10 + (c - b'0')) cs in
    if leb b'0' c && leb c b'9' then rest else acc

-- `Sscanf(text, "Q-%04d", &num)` on what follows the prefix; `none` is a scan error, at which the
-- number stays 0.
scan_number : List ℕ → Option ℕ
unfolding scan_digits
scan_number [] = none
scan_number (c ∷ cs) = if leb b'0' c && leb c b'9' then some (scan_digits 4 0 (c ∷ cs)) else none

unfoldable pub parse_ticket : List ℕ → Option ℕ
unfolding scan_number
parse_ticket (q ∷ dash ∷ ds) = if (q == b'Q') && (dash == b'-') then scan_number ds else none
parse_ticket _ = none

-- The order of texts in which the database sorts.
unfoldable pub text_lt : List ℕ → List ℕ → Bool
text_lt [] [] = false
text_lt [] (c ∷ cs) = true
text_lt (c ∷ cs) [] = false
text_lt (c ∷ cs) (d ∷ ds) = if ltb c d then true else (if c == d then text_lt cs ds else false)

abbrev pub four : ℕ → List ℕ
four n = (b'0' + n / 1000) ∷ (b'0' + n / 100 % 10) ∷ (b'0' + n / 10 % 10) ∷ (b'0' + n % 10) ∷ []

pub format_four : (n : ℕ) → n < 10000 → format_ticket n ≡ b'Q' ∷ b'-' ∷ four n
unfolding format_ticket
format_four n h = ground arith
