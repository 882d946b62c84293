-- ===== src/Access/Load/Slots.antt =====
-- internal/middlewares/resource_guard.go: who holds the slots, and who is let through.
use queuebuzz.Prelude.{
  ℕ, suc, ◌-◌, ◌≤◌, ◌≡◌, refl, Bool, true, false, List, [], ◌∷◌, length, any, ltb, ◌==◌,
  if◌then◌else◌, same_text, arith, Bool-cases, inl, inr, ==_self, subst, sym, ap, ◌∙◌,
}
use queuebuzz.Queue.Slug.{codes}
use queuebuzz.Access.Load.{
  Method, Request, Answer, next, server_overloaded, concurrency_limit_exceeded, Semaphore,
  max_slots, has_prefix, is_bypassed, acquire, resource_guard_middleware, without, release, Event,
  arrives, returns, step, run,
}

-- The requests that need no slot: those that only read, the check of the server's health, and the
-- notices of the payment service.
abbrev pub is_exempt : Method → List ℕ → Bool
is_exempt Method.get path = true
is_exempt Method.options path = true
is_exempt Method.changing path =
    if same_text path (codes "/healthz")
    then true
    else has_prefix (codes "/api/v1/billing/webhook") path

is_bypassed-exempt : (r : Request) → is_bypassed r ≡ is_exempt r.method r.path
unfolding is_bypassed
is_bypassed-exempt r = by_method r.method r.path
  where
    by_method :
        (m : Method) (path : List ℕ)
        → is_bypassed (record { id = r.id; method = m; path = path }) ≡ is_exempt m path
    by_method Method.get path = refl
    by_method Method.options path = refl
    by_method Method.changing path = elim (Bool-cases (same_text path (codes "/healthz"))) [
      | inl x ↦ rw x refl
      | inr x ↦ rw x refl
    ]

-- Every slot is held, and there are no more than the buffer has.
abbrev pub Held : Semaphore → Type 0
Held s = (s.used ≡ length s.holders) × (s.used ≤ max_slots)

length-without :
    (i : ℕ) (js : List ℕ) → any (λ j. i == j) js ≡ true → suc (length (without i js)) ≡ length js
length-without i [] h = absurd (ground (arith, h))
length-without i (j ∷ js) h = ground (arith, h, length-without i js)

acquire-Held : (i : ℕ) (s : Semaphore) → Held s → Held (acquire i s).1
acquire-Held i s (held, few) = elim (Bool-cases (ltb s.used max_slots)) [
  | inl x ↦ rw x (omega (arith, held), ground (arith, x))
  | inr x ↦ rw x (held, few)
]

guard-Held :
    (overloaded : Bool) (r : Request) (s : Semaphore)
    → Held s
    → Held (resource_guard_middleware overloaded r s).1
unfolding resource_guard_middleware
guard-Held overloaded r s h = elim (Bool-cases (is_bypassed r)) [
  | inl x ↦ rw x h
  | inr x ↦ rw x (shed overloaded)
]
  where
    shed : (b : Bool) → Held (if b then (server_overloaded, s) else acquire r.id s).1
    shed true = h
    shed false = acquire-Held r.id s h

release-Held : (i : ℕ) (s : Semaphore) → Held s → Held (release i s)
unfolding release
release-Held i s (held, few) = elim (Bool-cases (any (λ j. i == j) s.holders)) [
  | inl x ↦ rw x (omega (arith, held, length-without i s.holders x), omega (arith, few))
  | inr x ↦ rw x (held, few)
]

run-Held : (es : List Event) (s : Semaphore) → Held s → Held (run es s)
unfolding run step
run-Held [] s h = h
run-Held (arrives overloaded r ∷ es) s h = run-Held es _ (guard-Held overloaded r s h)
run-Held (returns i ∷ es) s h = run-Held es _ (release-Held i s h)

-- Everybody who holds a slot returns.
abbrev pub return_all : List ℕ → List Event
return_all [] = []
return_all (i ∷ is) = returns i ∷ return_all is

abbrev pub held_by : List ℕ → Semaphore
held_by is = record { used = length is; holders = is }

release-held_by : (i : ℕ) (is : List ℕ) → release i (held_by (i ∷ is)) ≡ held_by is
unfolding release
release-held_by i is =
    let freed : suc (length is) - 1 ≡ length is = omega arith in
    rw (==_self i) (ap {B = Semaphore} (λ u. record { used = u; holders = is }) freed)

run-return_all : (is : List ℕ) → (run (return_all is) (held_by is)).used ≡ 0
unfolding run step
run-return_all [] = refl
run-return_all (i ∷ is) =
    subst (λ u. (run (return_all is) u).used ≡ 0) (sym (release-held_by i is)) (run-return_all is)

-- The requests under way, last first: those that were answered `next` and that the guard does not
-- let pass it anyway, less those that have returned. It reads the answers, and not the semaphore.
abbrev pub entered : Answer → Request → List ℕ → List ℕ
entered next r under_way = if is_exempt r.method r.path then under_way else r.id ∷ under_way
entered _ r under_way = under_way

abbrev pub gone : ℕ → List ℕ → List ℕ
gone i [] = []
gone i (j ∷ js) = if i == j then js else j ∷ gone i js

abbrev pub under_way : List Event → Semaphore → List ℕ → List ℕ
under_way [] s js = js
under_way (arrives overloaded r ∷ es) s js =
    under_way es (step (arrives overloaded r) s)
      (entered (resource_guard_middleware overloaded r s).0 r js)
under_way (returns i ∷ es) s js = under_way es (step (returns i) s) (gone i js)

-- The answer that a request gets when `n` others are under way.
abbrev pub expected : Bool → Request → ℕ → Answer
expected overloaded r n =
    if is_exempt r.method r.path
    then next
    else if overloaded
    then server_overloaded
    else if ltb n 1000
    then next
    else concurrency_limit_exceeded

guard-entered :
    (overloaded : Bool) (r : Request) (s : Semaphore)
    → (resource_guard_middleware overloaded r s).1.holders
      ≡ entered (resource_guard_middleware overloaded r s).0 r s.holders
unfolding resource_guard_middleware
guard-entered overloaded r s =
    let same = sym (is_bypassed-exempt r) in
    elim (Bool-cases (is_bypassed r)) [
      | inl x ↦ rw x (rw (same ∙ x) refl)
      | inr x ↦ elim (Bool-cases overloaded) [
        | inl y ↦ rw (x, y) refl
        | inr y ↦ elim (Bool-cases (ltb s.used max_slots)) [
          | inl z ↦ rw (x, y, z) (rw (same ∙ x) refl)
          | inr z ↦ rw (x, y, z) refl
        ]
      ]
    ]

guard-expected :
    (overloaded : Bool) (r : Request) (s : Semaphore)
    → (resource_guard_middleware overloaded r s).0 ≡ expected overloaded r s.used
unfolding resource_guard_middleware
guard-expected overloaded r s = rw (sym (is_bypassed-exempt r)) (elim (Bool-cases (is_bypassed r)) [
  | inl x ↦ rw x refl
  | inr x ↦ elim (Bool-cases overloaded) [
    | inl y ↦ rw (x, y) refl
    | inr y ↦ elim (Bool-cases (ltb s.used max_slots)) [
      | inl z ↦ rw (x, y, z) refl
      | inr z ↦ rw (x, y, z) refl
    ]
  ]
])

without-gone : (i : ℕ) (js : List ℕ) → without i js ≡ gone i js
without-gone i [] = refl
without-gone i (j ∷ js) = rw (without-gone i js) refl

gone-absent : (i : ℕ) (js : List ℕ) → any (λ j. i == j) js ≡ false → gone i js ≡ js
gone-absent i [] h = refl
gone-absent i (j ∷ js) h = ground (arith, h, gone-absent i js)

release-gone : (i : ℕ) (s : Semaphore) → (release i s).holders ≡ gone i s.holders
unfolding release
release-gone i s = elim (Bool-cases (any (λ j. i == j) s.holders)) [
  | inl x ↦ rw x (without-gone i s.holders)
  | inr x ↦ rw x (sym (gone-absent i s.holders x))
]

run-under_way : (es : List Event) (s : Semaphore) → (run es s).holders ≡ under_way es s s.holders
unfolding run step
run-under_way [] s = refl
run-under_way (arrives overloaded r ∷ es) s =
    run-under_way es (step (arrives overloaded r) s)
    ∙ ap (under_way es (step (arrives overloaded r) s)) (guard-entered overloaded r s)
run-under_way (returns i ∷ es) s =
    run-under_way es (step (returns i) s)
    ∙ ap (under_way es (step (returns i) s)) (release-gone i s)

-- Whatever requests arrive and return, in whatever order, the slots are held by the requests under
-- way (those that were let through to the handler, were not exempt from the guard, and have not
-- returned), one for each, there are never more than a thousand, and the next request is let through
-- exactly if it is exempt, or the server is not overloaded and fewer than a thousand are under way;
-- when those that are under way have returned, no slot is in use.
pub run-returned :
    (es : List Event)
    → let s = run es (held_by []) in
      let js = under_way es (held_by []) [] in
      (s.holders ≡ js)
      × (s.used ≡ length js)
      × (s.used ≤ 1000)
      × ((overloaded : Bool) (r : Request)
          → (resource_guard_middleware overloaded r s).0 ≡ expected overloaded r (length js))
      × ((run (return_all js) s).used ≡ 0)
run-returned es =
    let (held, few) = run-Held es (held_by []) (refl, omega arith) in
    let same = run-under_way es (held_by []) in
    let used = held ∙ ap length same in
    (
      same,
      used,
      few,
      λ overloaded r.
          guard-expected overloaded r (run es (held_by [])) ∙ ap (expected overloaded r) used,
      subst (λ js. (run (return_all js) (run es (held_by []))).used ≡ 0) same
          (subst
            (λ u.
              (run (return_all (run es (held_by [])).holders)
                (record { used = u; holders = (run es (held_by [])).holders })).used
              ≡ 0)
            (sym held) (run-return_all (run es (held_by [])).holders)),
    )
