-- ===== src/Queue/Ticket/Recovery.antt =====
-- internal/modules/queue/service/service.go, `ensureTicketCounter`: when the greatest ticket text
-- is the one with the greatest number.
use queuebuzz.Prelude.{ℕ, ◌/◌, ◌≤◌, ◌<◌, ◌≡◌, true, some, arith, ltb}
use queuebuzz.Queue.Ticket.{format_ticket, parse_ticket, text_lt, format_four}

-- Up to 9999 a ticket's text is scanned back to its number.
pub parse_ticket-format_ticket : (n : ℕ) → n < 10000 → parse_ticket (format_ticket n) ≡ some n
unfolding parse_ticket
parse_ticket-format_ticket n h = rw (format_four n h) (ground arith)

-- Up to 9999 the order of the texts is the order of the numbers.
pub text_lt-format_ticket :
    (a b : ℕ) → a < 10000 → b < 10000 → text_lt (format_ticket a) (format_ticket b) ≡ ltb a b
unfolding text_lt
text_lt-format_ticket a b h k = rw (format_four a h, format_four b k) (ground arith)

-- From 10000 on a text is scanned without its last digit, and sorts below that of 9999.
long_ticket :
    (n : ℕ)
    → 10000 ≤ n
    → n < 99990
    → (parse_ticket (format_ticket n) ≡ some (n / 10))
      × (text_lt (format_ticket n) (format_ticket 9999) ≡ true)
unfolding parse_ticket text_lt format_ticket
long_ticket n h k = (ground arith, ground arith)
