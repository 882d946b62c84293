-- ===== src/Tokens/MagicLink.antt =====
-- internal/services/magic_link_service.go. A text is what `json.Marshal` makes of a payload, or one
-- that it did not make; the token that is drawn is an argument.
use queuebuzz.Prelude.{ℕ, ◌≡◌, refl, Option, none, some}
use queuebuzz.Net.{M, ok, err, nil_reply, ◌>>=◌, ◌>>◌, pure, request, write, attempt, calm}
use queuebuzz.Store.{KeySpace}

pub record Payload : Type 0 where
  pub email : ℕ
  pub claim_queue_id : Option ℕ
  pub redirect_url : Option ℕ

pub data Stored : Type 0 where
  marshalled : Payload → Stored
  -- a plain address
  legacy : ℕ → Stored

-- `magic:{token}`
module _ (K : KeySpace ℕ Stored) where
  unfoldable pub generate_and_store_magic_link : ℕ → Payload → M K.Keys ℕ
  generate_and_store_magic_link token p = do write (K.put token (marshalled p)); pure token

  unfoldable pub get_link : ℕ → M K.Keys Stored
  get_link token =
      request (λ s. elim (K.get token s) [ none ↦ (err nil_reply, s) | some t ↦ (ok t, s) ])

  -- An address that is no payload is returned and stays.
  abbrev pub open_link : ℕ → Stored → M K.Keys Payload
  open_link token (legacy email) =
      pure (record { email = email; claim_queue_id = none; redirect_url = none })
  open_link token (marshalled p) = do attempt (write (K.del token)); pure p

  unfoldable pub verify_magic_link : ℕ → M K.Keys Payload
  verify_magic_link token = do t ← get_link token; open_link token t

  -- When every call is answered, a link that was stored is verified once, with its payload, and not
  -- again.
  pub verify_magic_link-once :
      (token : ℕ) (p : Payload) (s : K.Keys)
      → let first = verify_magic_link token (generate_and_store_magic_link token p (calm s)).1 in
        (first.0 ≡ ok p) × ((verify_magic_link token first.1).0 ≡ err nil_reply)
  unfolding verify_magic_link generate_and_store_magic_link get_link calm
  verify_magic_link-once token p s =
      rw (K.get-put token (marshalled p) s)
        (refl, rw (K.get-del token (K.put token (marshalled p) s)) refl)
