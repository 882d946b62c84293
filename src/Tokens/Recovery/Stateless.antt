-- ===== src/Tokens/Recovery/Stateless.antt =====
-- `GenerateStatelessToken` and `VerifyStatelessToken` of
-- internal/modules/customer/service/recovery_service.go.
use queuebuzz.Prelude.{
  ℕ, ◌+◌, ◌≤◌, ◌<◌, ◌≡◌, refl, none, some, List, [], ◌∷◌, ◌++◌, ltb, if◌then◌else◌, All-append,
  same_text_self, arith,
}
use queuebuzz.Tokens.Texts.{print_int, max_int64, encode_hex}
use queuebuzz.Tokens.Texts.Cuts.{Lacks, cut_last-append, split-append, split-Lacks}
use queuebuzz.Tokens.Texts.Hex.{IsBytes, decode_hex-encode_hex, encode_hex-dot}
use queuebuzz.Tokens.Texts.Numbers.{IsDigits, print_int-IsDigits, scan_int-print_int}
use queuebuzz.Tokens.Recovery.{
  Hashes, signed, payload, open_token, dot, colon, generate_stateless_token, verify_stateless_token,
}

IsDigits-IsBytes : (ds : List ℕ) → IsDigits ds → IsBytes ds
IsDigits-IsBytes [] h = tt
IsDigits-IsBytes (d ∷ ds) (h, hs) = (ground (arith, h), IsDigits-IsBytes ds hs)

IsDigits-Lacks : (ds : List ℕ) → IsDigits ds → Lacks colon ds
IsDigits-Lacks [] h = tt
IsDigits-Lacks (d ∷ ds) (h, hs) = (ground (arith, h), IsDigits-Lacks ds hs)

module _ (H : Hashes) where
  pub open_token-signed : (raw : List ℕ) → IsBytes raw → open_token H (signed H raw) ≡ some raw
  open_token-signed raw h =
      rw
        (
          cut_last-append dot (encode_hex raw) (encode_hex (H.hmac raw))
              (encode_hex-dot (H.hmac raw)),
          decode_hex-encode_hex raw h,
          same_text_self (encode_hex (H.hmac raw)),
        )
        refl

  payload-IsBytes :
      (entry queue : List ℕ) (t : ℕ)
      → IsBytes entry
      → IsBytes queue
      → IsBytes (payload entry queue t)
  payload-IsBytes entry queue t e q =
      All-append (λ b. b < 256) entry _ e
        (
          omega arith,
          All-append (λ b. b < 256) queue _ q
              (omega arith, IsDigits-IsBytes (print_int t) (print_int-IsDigits t)),
        )

  -- A token for an entry and a queue whose identifiers have no colon is verified with them for 15
  -- minutes, and then no longer.
  pub verify_stateless_token-generate_stateless_token :
      (now later : ℕ) (entry queue : List ℕ)
      → Lacks colon entry
      → Lacks colon queue
      → IsBytes entry
      → IsBytes queue
      → now + 900 ≤ max_int64
      → verify_stateless_token H later (generate_stateless_token H now entry queue)
        ≡ (if ltb (now + 900) later then none else some (entry, queue))
  unfolding verify_stateless_token generate_stateless_token
  verify_stateless_token-generate_stateless_token now later entry queue le lq be bq small =
      rw
        (
          open_token-signed (payload entry queue (now + 900))
              (payload-IsBytes entry queue (now + 900) be bq),
          split-append colon entry (queue ++ (colon ∷ print_int (now + 900))) le,
          split-append colon queue (print_int (now + 900)) lq,
          split-Lacks colon (print_int (now + 900))
              (IsDigits-Lacks (print_int (now + 900)) (print_int-IsDigits (now + 900))),
          scan_int-print_int (now + 900) small,
        )
        refl
