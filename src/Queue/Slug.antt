-- ===== src/Queue/Slug.antt =====
-- The slug of a new queue: `slugRegex`, `IsValidSlug` and `reservedSlugs` of
-- internal/modules/queue/service/service.go. A slug is its bytes, which are ASCII here: of a text
-- with other characters, which `strings` trims and lowers by Unicode, nothing is said.
pub mod Shape
use Prim.Native.String.{String}
use Prim.Native.String
use Prim.Native.Char.{code}
use queuebuzz.Prelude.{
  same_text, ℕ, zero, suc, ◌+◌, ◌-◌, Bool, true, false, ◌&&◌, ◌||◌, List, [], ◌∷◌, leb, ◌==◌,
  is_empty, any, if◌then◌else◌,
}

abbrev pub codes : String → List ℕ
codes String.[] = []
codes (String.◌∷◌ c s) = code c ∷ codes s

abbrev pub between : ℕ → ℕ → ℕ → Bool
between a b c = leb a c && leb c b

-- `[a-z0-9]`
abbrev pub is_alnum : ℕ → Bool
is_alnum c = between b'a' b'z' c || between b'0' b'9' c

-- `[a-z0-9-]`
abbrev pub is_slug_char : ℕ → Bool
is_slug_char c = is_alnum c || (c == b'-')

-- `[a-z0-9-]{lo,hi}[a-z0-9]$`
abbrev pub matches_rest : ℕ → ℕ → List ℕ → Bool
matches_rest lo hi [] = false
matches_rest lo hi (c ∷ cs) =
    let more = matches_rest (lo - 1) (hi - 1) cs in
    ((lo == 0) && (is_alnum c && is_empty cs)) || (leb 1 hi && (is_slug_char c && more))

unfoldable pub is_valid_slug : List ℕ → Bool
is_valid_slug [] = false
is_valid_slug (c ∷ cs) = is_alnum c && matches_rest 1 28 cs

abbrev is_space : ℕ → Bool
is_space c = (c == 32) || between 9 13 c

abbrev trim_left : List ℕ → List ℕ
trim_left [] = []
trim_left (c ∷ cs) = let rest = trim_left cs in if is_space c then rest else c ∷ cs

abbrev trim_right : List ℕ → List ℕ
trim_right [] = []
trim_right (c ∷ cs) =
    let rest = trim_right cs in if is_space c && is_empty rest then [] else c ∷ rest

abbrev lower : List ℕ → List ℕ
lower [] = []
lower (c ∷ cs) = (if between b'A' b'Z' c then c + 32 else c) ∷ lower cs

-- `strings.ToLower(strings.TrimSpace(slug))`
unfoldable pub normal_slug : List ℕ → List ℕ
normal_slug s = lower (trim_right (trim_left s))

abbrev reserved_slugs : List (List ℕ)
reserved_slugs =
    codes "admin"
    ∷ codes "api"
    ∷ codes "app"
    ∷ codes "auth"
    ∷ codes "billing"
    ∷ codes "checkout"
    ∷ codes "dashboard"
    ∷ codes "guest-host"
    ∷ codes "help"
    ∷ codes "history"
    ∷ codes "join"
    ∷ codes "login"
    ∷ codes "pricing"
    ∷ codes "queue"
    ∷ codes "recover"
    ∷ codes "settings"
    ∷ codes "signup"
    ∷ codes "support"
    ∷ codes "terms"
    ∷ codes "privacy"
    ∷ codes "status"
    ∷ codes "waiting"
    ∷ []

unfoldable pub is_reserved_slug : List ℕ → Bool
is_reserved_slug s = any (same_text s) reserved_slugs
