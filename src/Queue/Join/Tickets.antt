-- ===== src/Queue/Join/Tickets.antt =====
-- `ensureTicketCounter` of internal/modules/queue/service/service.go: the ticket after the counter
-- was lost.
use queuebuzz.Prelude.{
  ℕ, suc, ◌<◌, ◌≤◌, ◌≡◌, ◌≢◌, refl, sym, ◌∙◌, ap, ap₂, false, none, some, List, arith, ltb,
}
use mathlib.Core.Option.{some-injective}
use queuebuzz.Net.{ok, ◌>>◌, calm}
use queuebuzz.Queue.Domain.{Entry}
use queuebuzz.Queue.Ticket.{format_ticket, parse_ticket, text_lt}
use queuebuzz.Queue.Ticket.Recovery.{parse_ticket-format_ticket, text_lt-format_ticket}
use queuebuzz.Queue.World.{Backend, World}
use queuebuzz.Queue.Repository.{next_ticket, has_ticket_counter, set_ticket_counter}
use queuebuzz.Queue.Lookup.{settle-or_missing, get_queue}
use queuebuzz.Queue.Join.{last_number, restore_counter, ensure_ticket_counter}

module _ (B : Backend) where
  -- Every entry of the queue has a ticket of a number below a bound.
  abbrev pub TicketsBelow : ℕ → ℕ → World B → Type 0
  TicketsBelow bound q w =
      (i : ℕ) (e : Entry)
      → B.entries.find_one i w.entries ≡ some e
      → e.queue_id ≡ q
      → (n : ℕ) × (n < bound) × (e.ticket_no ≡ format_ticket n)

  format_ticket-injective :
      (a b : ℕ) → a < 10000 → b < 10000 → format_ticket a ≡ format_ticket b → a ≡ b
  format_ticket-injective a b h k e =
      some-injective a b
        (sym (parse_ticket-format_ticket a h) ∙ ap parse_ticket e ∙ parse_ticket-format_ticket b k)

  restored-next_ticket :
      (q : ℕ) (w : World B)
      → B.counters.get q w.counters ≡ none
      → ((ensure_ticket_counter B q >> next_ticket B q) (calm w)).0
        ≡ ok (format_ticket (suc (last_number (B.last_ticket q w.entries))))
  unfolding ensure_ticket_counter has_ticket_counter restore_counter set_ticket_counter next_ticket
      get_queue calm
  restored-next_ticket q w h =
      rw
        (
          h,
          settle-or_missing _ _,
          settle-or_missing _ _,
          B.counters.get-put q (last_number (B.last_ticket q w.entries)) w.counters,
        )
        refl

  last_number-format : (m : ℕ) → m < 9999 → last_number (some (format_ticket m)) ≡ m
  unfolding last_number
  last_number-format m h = rw (parse_ticket-format_ticket m (omega (arith, h))) refl

  ltb-false : (a b : ℕ) → ltb a b ≡ false → b ≤ a
  ltb-false a b h = ground arith

  -- The number scanned from the greatest ticket text bounds those of all tickets.
  last_number-greatest :
      (q : ℕ) (w : World B)
      → TicketsBelow 9999 q w
      → (i : ℕ) (e : Entry) → B.entries.find_one i w.entries ≡ some e
      → e.queue_id ≡ q
      → (n : ℕ) × (e.ticket_no ≡ format_ticket n)
        × (n ≤ last_number (B.last_ticket q w.entries))
        × (last_number (B.last_ticket q w.entries) < 9999)
  unfolding last_number
  last_number-greatest q w all i e h k =
      let (t, last, greatest) = B.last_ticket_greatest q i e w.entries h k in
      let (j, d, found, of_q, ticket) = B.last_ticket_of q w.entries t last in
      let (m, small, text) = all j d found of_q in
      let (n, small', text') = all i e h k in
      let number =
        ap last_number (last ∙ ap some (sym ticket ∙ text)) ∙ last_number-format m small in
      let above =
        sym (text_lt-format_ticket m n (omega (arith, small)) (omega (arith, small')))
        ∙ ap₂ text_lt (sym (sym ticket ∙ text)) (sym text')
        ∙ greatest in
      (n, text', rw number (ltb-false m n above), rw number small)

  -- If the counter is lost, and the numbers of all tickets of the queue lie below 9999, the next
  -- ticket is one that no entry of the queue has, when every call is answered.
  pub restored_ticket-is_new :
      (q i : ℕ) (e : Entry) (w : World B)
      → B.counters.get q w.counters ≡ none
      → TicketsBelow 9999 q w
      → B.entries.find_one i w.entries ≡ some e
      → e.queue_id ≡ q
      → (t : List ℕ) × (((ensure_ticket_counter B q >> next_ticket B q) (calm w)).0 ≡ ok t)
        × (e.ticket_no ≢ t)
  restored_ticket-is_new q i e w h all found of_q =
      let (n, text, le, small) = last_number-greatest q w all i e found of_q in
      (
        format_ticket (suc (last_number (B.last_ticket q w.entries))),
        restored-next_ticket q w h,
        λ same.
            let equal =
              format_ticket-injective n (suc (last_number (B.last_ticket q w.entries)))
                (omega (arith, le, small)) (omega (arith, small)) (sym text ∙ same) in
            omega (arith, le, equal),
      )
