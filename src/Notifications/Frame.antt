-- ===== src/Notifications/Frame.antt =====
-- What `sendPush` may change: only what leaves the hub.
use code_caller.Prelude.{
  ℕ, ◌≡◌, refl, true, ◌==◌, inl, inr, Option-cases, String, List, [], ◌∷◌, arith,
}
use code_caller.Text.{split_colon}
use code_caller.Crypto.{decrypt_secret, decrypt_parts_same}
use code_caller.Schema.{PushToken}
use code_caller.Platform.{Platform}
use code_caller.Hub.{Hub}
use code_caller.Notifications.{decrypt_all, push_to, send_push}

module _ ⦃pf : Platform⦄ where
  decrypt_secret_same : (token key : String) (h : Hub) → (decrypt_secret token key h).1 ≡ h
  unfolding decrypt_secret
  decrypt_secret_same token key h = decrypt_parts_same key (split_colon token) h

  decrypt_all_same :
      (key : String) (l : List (ℕ × PushToken)) (h : Hub) → (decrypt_all key l h).1 ≡ h
  unfolding decrypt_all
  decrypt_all_same key [] h = refl
  decrypt_all_same key ((i, t) ∷ l) h =
      ground (arith, decrypt_all_same key l h, decrypt_secret_same t.token key h)

  push_to_frame :
      (l : List (ℕ × PushToken)) (key title body : String) (h : Hub)
      → (push_to l key title body h).1 ≡ record h { sent = (push_to l key title body h).1.sent }
  unfolding push_to
  push_to_frame [] key title body h = refl
  push_to_frame (t ∷ l) key title body h = ground (arith, decrypt_all_same key (t ∷ l) h)

  -- A push changes no row and no job, whether or not it can be sent.
  pub send_push_frame :
      (user_id : ℕ) (title body : String) (h : Hub)
      → (send_push user_id title body h).1
        ≡ record h { sent = (send_push user_id title body h).1.sent }
  unfolding send_push
  send_push_frame user_id title body h =
      let tokens =
        pf.push_tokens.find_many (λ _ _. true) (λ _ t. t.user_id == user_id) h.push_tokens in
      elim (Option-cases (pf.env "PUSH_TOKEN_ENC_KEY")) [
        | inl missing ↦ ground arith
        | inr (key, e) ↦ ground (arith, push_to_frame tokens key title body h)
      ]
