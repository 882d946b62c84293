-- ===== src/Store.antt =====
-- The services that the program calls and does not implement: a MongoDB collection, a Redis sorted
-- set and a Redis key space. Each is a record of operations with the behaviour that their
-- documentation promises; Store/Concrete.antt shows that the promises can be met.
pub mod Concrete
use mathlib.Core.Option
use queuebuzz.Prelude.{
  ℕ, ◌+◌, ◌<◌, ◌≡◌, ◌≢◌, Bool, true, false, not, Option, none, some, List, [], ◌∷◌, ◌++◌, map, All,
  if◌then◌else◌, ◌==◌, any, keep, is_some, only,
}

-- A collection of documents, each under its `_id`, which is unique.
pub record Collection {D : Type 0} (key : D → ℕ) : Type 1 where
  pub Col : Type 0
  -- `FindOne` by `_id`
  pub find_one : ℕ → Col → Option D
  -- `Find` by a filter, sorted by the time of creation
  pub find : (D → Bool) → Col → List D
  -- `InsertOne`; `none` is the duplicate key error
  pub insert_one : D → Col → Option Col
  pub update_one : ℕ → (D → D) → Col → Col
  pub update_many : (D → Bool) → (D → D) → Col → Col
  pub delete_many : (D → Bool) → Col → Col
  pub find_one-key : (i : ℕ) (d : D) (c : Col) → find_one i c ≡ some d → key d ≡ i
  pub find_one-update_one :
      (i j : ℕ) (f : D → D) (c : Col)
      → ((d : D) → key (f d) ≡ key d)
      → find_one j (update_one i f c)
        ≡ (if i == j then Option.map f (find_one j c) else find_one j c)
  pub find_one-update_many :
      (j : ℕ) (p : D → Bool) (f : D → D) (c : Col)
      → ((d : D) → key (f d) ≡ key d)
      → find_one j (update_many p f c) ≡ Option.map (λ d. if p d then f d else d) (find_one j c)
  pub find_one-delete_many :
      (j : ℕ) (p : D → Bool) (c : Col)
      → find_one j (delete_many p c) ≡ only (λ d. not (p d)) (find_one j c)
  pub find_one-insert_one :
      (j : ℕ) (d : D) (c c' : Col)
      → insert_one d c ≡ some c'
      → find_one j c' ≡ (if key d == j then some d else find_one j c)
  -- A filtered search returns documents of the collection that pass, and all of them.
  pub find_sound :
      (p : D → Bool) (c : Col) → All (λ d. (find_one (key d) c ≡ some d) × (p d ≡ true)) (find p c)
  pub any-find :
      (j : ℕ) (p : D → Bool) (c : Col)
      → any (λ d. key d == j) (find p c) ≡ is_some (only p (find_one j c))

-- A score, if there is one, lies below another.
abbrev pub Below : Option ℕ → ℕ → Type 0
Below none s = Unit {0}
Below (some t) s = t < s

-- A sorted set of members with scores, in the order of the scores.
pub record SortedSet : Type 1 where
  pub Set : Type 0
  pub empty : Set
  -- `ZADD`, which moves a member that is there
  pub add : ℕ → ℕ → Set → Set
  -- `ZREM`
  pub rem : ℕ → Set → Set
  -- `ZRANGE 0 -1`
  pub range : Set → List ℕ
  pub score : ℕ → Set → Option ℕ
  -- `ZRANGE -1 -1 WITHSCORES`
  pub last_score : Set → Option ℕ
  pub range-empty : range empty ≡ []
  pub score-add :
      (s m n : ℕ) (z : Set) → score n (add s m z) ≡ (if m == n then some s else score n z)
  pub any-range : (n : ℕ) (z : Set) → any (λ m. m == n) (range z) ≡ is_some (score n z)
  pub range-rem : (m : ℕ) (z : Set) → range (rem m z) ≡ keep (λ n. not (n == m)) (range z)
  -- A new member with a score above the last one stands last.
  pub range-add_last :
      (s m : ℕ) (z : Set)
      → score m z ≡ none
      → Below (last_score z) s
      → range (add s m z) ≡ range z ++ m ∷ []

-- The keys of one kind: `SET`, `GET`, `DEL` and expiry.
pub record KeySpace (K V : Type 0) : Type 1 where
  pub Keys : Type 0
  pub get : K → Keys → Option V
  pub put : K → V → Keys → Keys
  pub del : K → Keys → Keys
  pub get-put : (k : K) (v : V) (m : Keys) → get k (put k v m) ≡ some v
  pub get-put_ne : (k j : K) (v : V) (m : Keys) → k ≢ j → get j (put k v m) ≡ get j m
  pub get-del : (k : K) (m : Keys) → get k (del k m) ≡ none
  pub get-del_ne : (k j : K) (m : Keys) → k ≢ j → get j (del k m) ≡ get j m
