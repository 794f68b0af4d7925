-- ===== src/Notifications/Tokens.antt =====
-- What the registration of a push token stores (hub-api/src/notifications/notifications.service.ts,
-- `registerPushToken`).
use code_caller.Prelude.{ℕ, suc, ◌≡◌, String, none, some, arith, ◌==◌, ==_refl}
use code_caller.Schema.{PushToken, PushPlatform}
use code_caller.Platform.{Platform}
use code_caller.Hub.{Hub, ok}
use code_caller.Crypto.Secrets.{stored}
use code_caller.Notifications.{register_push_token, is_token_of}

module _ ⦃pf : Platform⦄ (user_id : ℕ) (token : String) (platform : PushPlatform) (h : Hub)
    {key : String} (configured : pf.env "PUSH_TOKEN_ENC_KEY" ≡ some key)
    (fresh : pf.push_tokens.find_first
        (λ _. 0)
        (is_token_of user_id (stored token key h))
        h.push_tokens
      ≡ none) where
  -- With the key configured, the registration of a push token adds a row for the user unless one
  -- holds the very text that the draw of this registration gives, so that a token that was stored
  -- under another draw is stored again.
  pub register_push_token_adds :
      let (r, h') = register_push_token user_id token platform h in
      (r ≡ ok tt)
      × (pf.push_tokens.count (λ _ t. t.user_id == user_id) h'.push_tokens
          ≡ suc (pf.push_tokens.count (λ _ t. t.user_id == user_id) h.push_tokens))
  unfolding register_push_token
  register_push_token_adds =
      let row : PushToken = record {
        user_id = user_id;
        token = stored token key h;
        platform = platform;
      } in
      (
        ground arith,
        ground (
          arith,
          ==_refl user_id,
          pf.push_tokens.count-create (λ _ t. t.user_id == user_id) row h.push_tokens,
        ),
      )
