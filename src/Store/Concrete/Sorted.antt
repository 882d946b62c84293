-- ===== src/Store/Concrete/Sorted.antt =====
-- A Redis sorted set as a list of members with their scores, for
-- internal/modules/queue/repository/redis.go.
use queuebuzz.Prelude.{
  ℕ, ◌≡◌, refl, not, Option, none, some, List, [], ◌∷◌, ◌++◌, if◌then◌else◌, ◌==◌, keep, any, ap,
  is_some, arith, ltb,
}
use queuebuzz.Store.{Below, SortedSet}

pub record Scored : Type 0 where
  pub member : ℕ
  pub points : ℕ

abbrev pub members : List Scored → List ℕ
members [] = []
members (e ∷ z) = e.member ∷ members z

abbrev pub score_of : ℕ → List Scored → Option ℕ
score_of n [] = none
score_of n (e ∷ z) = if e.member == n then some e.points else score_of n z

abbrev pub rem_member : ℕ → List Scored → List Scored
rem_member m [] = []
rem_member m (e ∷ z) = if e.member == m then rem_member m z else e ∷ rem_member m z

abbrev pub insert_scored : ℕ → ℕ → List Scored → List Scored
insert_scored s m [] = record { member = m; points = s } ∷ []
insert_scored s m (e ∷ z) =
    if ltb s e.points then record { member = m; points = s } ∷ (e ∷ z) else e ∷ insert_scored s m z

score_of-rem_member :
    (m n : ℕ) (z : List Scored)
    → score_of n (rem_member m z) ≡ (if m == n then none else score_of n z)
score_of-rem_member m n [] = ground arith
score_of-rem_member m n (e ∷ z) = ground (arith, score_of-rem_member m n z)

score_of-insert :
    (s m n : ℕ) (z : List Scored)
    → score_of m z ≡ none
    → score_of n (insert_scored s m z) ≡ (if m == n then some s else score_of n z)
score_of-insert s m n [] h = ground arith
score_of-insert s m n (e ∷ z) h = ground (arith, score_of-insert s m n z)

pub any-members : (n : ℕ) (z : List Scored) → any (λ m. m == n) (members z) ≡ is_some (score_of n z)
any-members n [] = refl
any-members n (e ∷ z) = ground (arith, any-members n z)

pub members-rem_member :
    (m : ℕ) (z : List Scored) → members (rem_member m z) ≡ keep (λ n. not (n == m)) (members z)
members-rem_member m [] = refl
members-rem_member m (e ∷ z) = ground (arith, members-rem_member m z)

rem_member_absent : (m : ℕ) (z : List Scored) → score_of m z ≡ none → rem_member m z ≡ z
rem_member_absent m [] h = refl
rem_member_absent m (e ∷ z) h = ground (arith, rem_member_absent m z)

abbrev pub last_points : List Scored → Option ℕ
last_points [] = none
last_points (e ∷ []) = some e.points
last_points (e ∷ f ∷ z) = last_points (f ∷ z)

abbrev append_scored : ℕ → ℕ → List Scored → List Scored
append_scored s m [] = record { member = m; points = s } ∷ []
append_scored s m (e ∷ z) = e ∷ append_scored s m z

-- Appending is the common case.
abbrev pub place : ℕ → ℕ → List Scored → List Scored
place s m z = elim (last_points z) [
  | none ↦ append_scored s m z
  | some t ↦ if ltb t s then append_scored s m z else insert_scored s m z
]

score_of-append :
    (s m n : ℕ) (z : List Scored)
    → score_of m z ≡ none
    → score_of n (append_scored s m z) ≡ (if m == n then some s else score_of n z)
score_of-append s m n [] h = ground arith
score_of-append s m n (e ∷ z) h = ground (arith, score_of-append s m n z)

score_of-place :
    (s m n : ℕ) (z : List Scored)
    → score_of m z ≡ none
    → score_of n (place s m z) ≡ (if m == n then some s else score_of n z)
score_of-place s m n z h = ground (arith, score_of-append s m n z, score_of-insert s m n z)

abbrev pub add_member : ℕ → ℕ → List Scored → List Scored
add_member s m z = place s m (rem_member m z)

pub score_of-add_member :
    (s m n : ℕ) (z : List Scored)
    → score_of n (add_member s m z) ≡ (if m == n then some s else score_of n z)
score_of-add_member s m n z = ground (
  arith,
  score_of-place s m n (rem_member m z),
  score_of-rem_member m m z,
  score_of-rem_member m n z,
)

members-append_scored :
    (s m : ℕ) (z : List Scored) → members (append_scored s m z) ≡ members z ++ m ∷ []
members-append_scored s m [] = refl
members-append_scored s m (e ∷ z) = ap (◌∷◌ e.member) (members-append_scored s m z)

members-place :
    (s m : ℕ) (z : List Scored)
    → Below (last_points z) s
    → members (place s m z) ≡ members z ++ m ∷ []
members-place s m z h = ground (arith, members-append_scored s m z)

pub members-add_last :
    (s m : ℕ) (z : List Scored)
    → score_of m z ≡ none
    → Below (last_points z) s
    → members (add_member s m z) ≡ members z ++ m ∷ []
members-add_last s m z a h = rw (rem_member_absent m z a) (members-place s m z h)

abbrev pub sorted_set : SortedSet
sorted_set = record {
  Set = List Scored;
  empty = [];
  add = add_member;
  rem = rem_member;
  range = members;
  score = score_of;
  last_score = last_points;
  range-empty = refl;
  score-add = score_of-add_member;
  any-range = any-members;
  range-rem = members-rem_member;
  range-add_last = members-add_last;
}
