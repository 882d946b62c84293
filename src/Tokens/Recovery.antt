-- ===== src/Tokens/Recovery.antt =====
-- internal/modules/customer/service/recovery_service.go: the tokens by which a guest comes back, and
-- the one mail that carries a token. Identifiers and tokens are bytes, so that a token is cut and
-- decoded as the source does it. HMAC-SHA256 under the key of the service and SHA-256 are functions
-- on bytes; random bytes are an argument.
pub mod Stateless
pub mod Claims
pub mod Dispatch
use mathlib.Core.List.{◌++◌ as append}
use queuebuzz.Prelude.{
  ℕ, ◌+◌, ◌≡◌, Bool, true, false, not, Option, none, some, List, [], ◌∷◌, ◌++◌, is_empty, is_some,
  same_text, ltb, if◌then◌else◌, ◌||◌,
}
use queuebuzz.Net.{
  M, Reply, ok, err, nil_reply, rejected, ◌>>=◌, ◌>>◌, pure, fail, request, write, attempt, observe,
  local, give,
}
use queuebuzz.Store.{Collection, KeySpace}
use queuebuzz.Tokens.Texts.{
  cut, cut_last, split, encode_hex, decode_hex, Int64, scan_int, print_int,
}
use queuebuzz.Tokens.Texts.Hex.{IsBytes}

pub record Hashes : Type 0 where
  pub hmac : List ℕ → List ℕ
  pub sha256 : List ℕ → List ℕ

-- The fields of an entry that the service reads.
pub record Recipient : Type 0 where
  pub id : ℕ
  pub recovery_email_sent_at : Option ℕ

pub record Redis : Type 1 where
  -- `recovery:{hash}`
  pub tokens : KeySpace (List ℕ) (List ℕ)
  pub entries : Collection {D = Recipient} (λ e. e.id)

pub record Recoveries (R : Redis) : Type 0 where
  pub tokens : R.tokens.Keys
  pub entries : R.entries.Col
  -- the tokens whose links were handed to the mail service
  pub mails : List (List ℕ)
  pub now : ℕ

abbrev pub dot : ℕ
dot = b'.'

abbrev pub colon : ℕ
colon = b':'

abbrev pub payload : List ℕ → List ℕ → ℕ → List ℕ
payload entry queue expiration = entry ++ (colon ∷ (queue ++ (colon ∷ print_int expiration)))

abbrev pub has_passed : ℕ → Int64 → Bool
has_passed now (Int64.positive n) = ltb n now
has_passed now (Int64.negative n) = ltb 0 (now + n)

abbrev unless_passed : ℕ → List ℕ → List ℕ → Option Int64 → Option (List ℕ × List ℕ)
unless_passed now entry queue none = none
unless_passed now entry queue (some t) = if has_passed now t then none else some (entry, queue)

abbrev check_segments : ℕ → List (List ℕ) → Option (List ℕ × List ℕ)
check_segments now (entry ∷ queue ∷ expiration ∷ []) =
    unless_passed now entry queue (scan_int expiration)
check_segments now _ = none

abbrev check_payload : ℕ → Option (List ℕ) → Option (List ℕ × List ℕ)
check_payload now none = none
check_payload now (some raw) = check_segments now (split colon raw)

abbrev is_unmarked : Option Recipient → Bool
is_unmarked none = false
is_unmarked (some e) = not (is_some e.recovery_email_sent_at)

-- `GenerateStatelessToken` at a time in seconds
module _ (H : Hashes) where
  abbrev pub signed : List ℕ → List ℕ
  signed raw = encode_hex raw ++ dot ∷ encode_hex (H.hmac raw)

  unfoldable pub generate_stateless_token : ℕ → List ℕ → List ℕ → List ℕ
  generate_stateless_token now entry queue = signed (payload entry queue (now + 900))

  -- The payload of a token whose signature fits.
  abbrev check_signature : List ℕ → Option (List ℕ) → Option (List ℕ)
  check_signature sig none = none
  check_signature sig (some raw) =
      if same_text (encode_hex (H.hmac raw)) sig then some raw else none

  abbrev check_parts : Option (List ℕ × List ℕ) → Option (List ℕ)
  check_parts none = none
  check_parts (some (text, sig)) = check_signature sig (decode_hex text)

  abbrev pub open_token : List ℕ → Option (List ℕ)
  open_token token = check_parts (cut_last dot token)

  unfoldable pub verify_stateless_token : ℕ → List ℕ → Option (List ℕ × List ℕ)
  verify_stateless_token now token = check_payload now (open_token token)

  module _ (R : Redis) where
    abbrev pub set_token : List ℕ → List ℕ → M (Recoveries R) (Unit {0})
    set_token k v = write (λ s. record s { tokens = R.tokens.put k v s.tokens })

    -- `none` for the random bytes is an error of the generator.
    unfoldable pub generate_token : Option (List ℕ) → List ℕ → List ℕ → M (Recoveries R) (List ℕ)
    generate_token none entry queue = fail (rejected 500)
    generate_token (some raw) entry queue = do
      set_token (H.sha256 (signed raw)) (entry ++ colon ∷ queue)
      pure (signed raw)

    -- `GETDEL`
    unfoldable pub take_token : List ℕ → M (Recoveries R) (List ℕ)
    take_token k = request (λ s. elim (R.tokens.get k s.tokens) [
      | none ↦ (err nil_reply, s)
      | some v ↦ (ok v, record s { tokens = R.tokens.del k s.tokens })
    ])

    -- `parseVal`, and the test of its parts
    abbrev pub parse_val : Option (List ℕ × List ℕ) → M (Recoveries R) (List ℕ × List ℕ)
    parse_val none = fail (rejected 500)
    parse_val (some (entry, queue)) =
        if is_empty entry || is_empty queue then fail (rejected 500) else pure (entry, queue)

    abbrev claim_opened : List ℕ → Option (List ℕ) → M (Recoveries R) (List ℕ × List ℕ)
    claim_opened token none = fail (rejected 401)
    claim_opened token (some raw) = do v ← take_token (H.sha256 token); parse_val (cut colon v)

    unfoldable pub claim_token : List ℕ → M (Recoveries R) (List ℕ × List ℕ)
    claim_token token = claim_opened token (open_token token)

    -- `UpdateOne` of an entry without the mark; it tells whether one was changed.
    unfoldable pub mark_sent : ℕ → M (Recoveries R) Bool
    mark_sent i = request (λ s.
        if is_unmarked (R.entries.find_one i s.entries)
        then (
          ok true,
          record s {
            entries =
                R.entries.update_one i (λ e. record e { recovery_email_sent_at = some s.now })
                  s.entries;
          },
        )
        else (ok false, s))

    unfoldable pub unmark_sent : ℕ → M (Recoveries R) (Unit {0})
    unmark_sent i = write (λ s. record s {
      entries = R.entries.update_one i (λ e. record e { recovery_email_sent_at = none }) s.entries;
    })

    unfoldable pub send_recovery : List ℕ → M (Recoveries R) (Unit {0})
    send_recovery token = local (λ s. record s { mails = token ∷ s.mails })

    abbrev send_or_unmark : ℕ → Reply (List ℕ) → M (Recoveries R) (Unit {0})
    send_or_unmark i (ok token) = send_recovery token
    send_or_unmark i (err e) = do attempt (unmark_sent i); fail e

    abbrev dispatch_marked :
        ℕ → Option (List ℕ) → List ℕ → List ℕ → Bool → M (Recoveries R) (Unit {0})
    dispatch_marked i raw entry queue false = pure tt
    dispatch_marked i raw entry queue true = do
      token ← observe (generate_token raw entry queue)
      send_or_unmark i token

    -- The entry is `i` in the collection, and `entry` in the token.
    unfoldable pub dispatch_recovery_email :
        ℕ → Option (List ℕ) → List ℕ → List ℕ → M (Recoveries R) (Unit {0})
    dispatch_recovery_email i raw entry queue = do
      marked ← mark_sent i
      dispatch_marked i raw entry queue marked
