-- ===== src/Queue/Greatest.antt =====
-- The search of `ensureTicketCounter` in internal/modules/queue/service/service.go, `FindOne` sorted
-- by the ticket from the greatest down, over any collection: what the database promises of it can
-- be met.
use queuebuzz.Prelude.{
  ℕ, ◌≡◌, refl, sym, ◌∙◌, ap, Bool, true, false, Bool-cases, inl, inr, Option, none, some, List, [],
  ◌∷◌, All, any, arith, if◌then◌else◌, ◌==◌, ==_self, ==_iff, Option-cases,
}
use mathlib.Core.Option.{some-injective}
use queuebuzz.Store.{Collection}
use queuebuzz.Queue.Domain.{Entry}
use queuebuzz.Queue.Ticket.{text_lt}

abbrev pub max_text : List ℕ → Option (List ℕ) → List ℕ
max_text t none = t
max_text t (some u) = if text_lt t u then u else t

abbrev pub greatest_of : List Entry → Option (List ℕ)
greatest_of [] = none
greatest_of (e ∷ es) = some (max_text e.ticket_no (greatest_of es))

text_lt_irrefl : (a : List ℕ) → text_lt a a ≡ false
unfolding text_lt
text_lt_irrefl [] = refl
text_lt_irrefl (x ∷ a) = ground (arith, text_lt_irrefl a)

text_lt_asym : (a b : List ℕ) → text_lt a b ≡ true → text_lt b a ≡ false
unfolding text_lt
text_lt_asym [] [] h = refl
text_lt_asym [] (y ∷ b) h = refl
text_lt_asym (x ∷ a) [] h = ground arith
text_lt_asym (x ∷ a) (y ∷ b) h = ground (arith, text_lt_asym a b)

-- What is not below a text that is not below a third is not below the third.
text_lt_trans : (a b c : List ℕ) → text_lt a b ≡ false → text_lt b c ≡ false → text_lt a c ≡ false
unfolding text_lt
text_lt_trans [] [] c h k = k
text_lt_trans [] (y ∷ b) c h k = ground arith
text_lt_trans (x ∷ a) b [] h k = refl
text_lt_trans (x ∷ a) [] (z ∷ c) h k = ground arith
text_lt_trans (x ∷ a) (y ∷ b) (z ∷ c) h k = ground (arith, text_lt_trans a b c)

max_text_first : (t : List ℕ) (o : Option (List ℕ)) → text_lt (max_text t o) t ≡ false
max_text_first t none = text_lt_irrefl t
max_text_first t (some u) = elim (Bool-cases (text_lt t u)) [
  | inl x ↦ rw x (text_lt_asym t u x)
  | inr x ↦ rw x (text_lt_irrefl t)
]

max_text_second : (t u : List ℕ) → text_lt (max_text t (some u)) u ≡ false
max_text_second t u = elim (Bool-cases (text_lt t u)) [
  | inl x ↦ rw x (text_lt_irrefl u)
  | inr x ↦ rw x x
]

module _ (C : Collection {D = Entry} (λ e. e.id)) where
  abbrev of : ℕ → Entry → Bool
  of q e = e.queue_id == q

  abbrev pub last_ticket : ℕ → C.Col → Option (List ℕ)
  last_ticket q c = greatest_of (C.find (of q) c)

  abbrev Found : ℕ → C.Col → List Entry → Type 0
  Found q c es = All (λ d. (C.find_one d.id c ≡ some d) × (of q d ≡ true)) es

  greatest_of-stored :
      (q : ℕ) (c : C.Col) (t : List ℕ) (es : List Entry)
      → Found q c es
      → greatest_of es ≡ some t
      → (i : ℕ) × (e : Entry) × (C.find_one i c ≡ some e) × (e.queue_id ≡ q) × (e.ticket_no ≡ t)
  greatest_of-stored q c t [] found h = ground arith
  greatest_of-stored q c t (e ∷ es) ((there, belongs), found) h =
      elim (Option-cases (greatest_of es)) [
        | inl x ↦ (e.id, e, there, (==_iff e.queue_id q).0 belongs, some-injective _ t (rw x at h))
        | inr (u, x) ↦ elim (Bool-cases (text_lt e.ticket_no u)) [
          | inl y ↦ greatest_of-stored q c t es found (x ∙ (rw (x, y) at h))
          | inr y ↦
              (e.id, e, there, (==_iff e.queue_id q).0 belongs, some-injective _ t (rw (x, y) at h))
        ]
      ]

  greatest_of-greatest :
      (q i : ℕ) (e : Entry) (c : C.Col) (es : List Entry)
      → Found q c es
      → C.find_one i c ≡ some e
      → any (λ d. d.id == i) es ≡ true
      → (t : List ℕ) × (greatest_of es ≡ some t) × (text_lt t e.ticket_no ≡ false)
  greatest_of-greatest q i e c [] found h k = ground arith
  greatest_of-greatest q i e c (d ∷ es) ((there, belongs), found) h k =
      elim (Bool-cases (d.id == i)) [
        | inl x ↦
            let same =
              some-injective d e (sym there ∙ ap (λ j. C.find_one j c) ((==_iff d.id i).0 x) ∙ h) in
            (
              max_text d.ticket_no (greatest_of es),
              refl,
              ap (text_lt (max_text d.ticket_no (greatest_of es)))
                    (sym (ap (λ b. b.ticket_no) same))
                  ∙ max_text_first d.ticket_no (greatest_of es),
            )
        | inr x ↦
            let (u, eq, below) = greatest_of-greatest q i e c es found h (rw x at k) in
            (
              max_text d.ticket_no (greatest_of es),
              refl,
              rw eq (
                  text_lt_trans (max_text d.ticket_no (some u)) u e.ticket_no
                    (max_text_second d.ticket_no u) below),
            )
      ]

  pub last_ticket_of :
      (q : ℕ) (c : C.Col) (t : List ℕ)
      → last_ticket q c ≡ some t
      → (i : ℕ) × (e : Entry) × (C.find_one i c ≡ some e) × (e.queue_id ≡ q) × (e.ticket_no ≡ t)
  last_ticket_of q c t h = greatest_of-stored q c t (C.find (of q) c) (C.find_sound (of q) c) h

  pub last_ticket_greatest :
      (q i : ℕ) (e : Entry) (c : C.Col)
      → C.find_one i c ≡ some e
      → e.queue_id ≡ q
      → (t : List ℕ) × (last_ticket q c ≡ some t) × (text_lt t e.ticket_no ≡ false)
  last_ticket_greatest q i e c h k =
      greatest_of-greatest q i e c (C.find (of q) c) (C.find_sound (of q) c) h
        (C.any-find i (of q) c ∙ rw (h, k, ==_self q) refl)
