-- ===== src/Store/Concrete/Keys.antt =====
-- A Redis key space as a function, for internal/modules/queue/repository/redis.go.
use queuebuzz.Prelude.{◌≡◌, ◌≢◌, Option, none, some, arith}
use queuebuzz.Store.{KeySpace}

module _ {K V : Type 0} (dec : Discrete K) where
  abbrev pub put : K → V → (K → Option V) → K → Option V
  put k v f j = elim (dec k j) [ yes e ↦ some v | no n ↦ f j ]

  abbrev pub del : K → (K → Option V) → K → Option V
  del k f j = elim (dec k j) [ yes e ↦ none | no n ↦ f j ]

  pub put_self : (k : K) (v : V) (f : K → Option V) → put k v f k ≡ some v
  put_self k v f = ground arith

  pub put_ne : (k j : K) (v : V) (f : K → Option V) → k ≢ j → put k v f j ≡ f j
  put_ne k j v f n = ground arith

  pub del_self : (k : K) (f : K → Option V) → del k f k ≡ none
  del_self k f = ground arith

  pub del_ne : (k j : K) (f : K → Option V) → k ≢ j → del k f j ≡ f j
  del_ne k j f n = ground arith

  abbrev pub key_space : KeySpace K V
  key_space = record {
    Keys = K → Option V;
    get = λ k f. f k;
    put = put;
    del = del;
    get-put = put_self;
    get-put_ne = put_ne;
    get-del = del_self;
    get-del_ne = del_ne;
  }
