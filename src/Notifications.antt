-- ===== src/Notifications.antt =====
-- hub-api/src/notifications/notifications.service.ts.
pub mod Frame
pub mod Tokens
use code_caller.Prelude.{
  ℕ, ◌&&◌, String, Bool, true, not, none, some, List, [], ◌∷◌, ◌==◌, if◌then◌else◌,
}
use code_caller.Prelude.{str_eq, is_some}
use code_caller.Schema.{PushToken, PushPlatform}
use code_caller.Platform.{Platform}
use code_caller.Hub.{Action, ErrorKind, pure, or_raise, gets, modify, send, push, ◌>>=◌}
use code_caller.Crypto.{encrypt_secret, decrypt_secret}

module _ ⦃pf : Platform⦄ where
  -- `this.config.getOrThrow('PUSH_TOKEN_ENC_KEY')`
  abbrev pub push_token_enc_key : Action String
  push_token_enc_key =
      or_raise (pf.env "PUSH_TOKEN_ENC_KEY") ErrorKind.plain
        "Configuration key \"PUSH_TOKEN_ENC_KEY\" does not exist"

  -- An empty path counts as none, and a failing `initializeApp` is only logged.
  abbrev on_module_init : Action (Unit {0})
  on_module_init h = elim (pf.env "FCM_SERVICE_ACCOUNT_PATH") [
    | none ↦ pure tt h
    | some path ↦
        if str_eq path ""
        then pure tt h
        else if pf.fcm_init path
        then modify (λ g. record g { push_app = true }) h
        else pure tt h
  ]

  abbrev pub is_token_of : ℕ → String → ℕ → PushToken → Bool
  is_token_of user_id token i t = t.user_id == user_id && str_eq t.token token

  -- `upsert` on the pair of user and encrypted token
  unfoldable pub register_push_token : ℕ → String → PushPlatform → Action (Unit {0})
  unfolding encrypt_secret
  register_push_token user_id token platform = do
    key ← push_token_enc_key
    encrypted ← encrypt_secret token key
    modify λ h.
        if is_some
          (pf.push_tokens.find_first (λ _. 0) (is_token_of user_id encrypted) h.push_tokens)
        then record h {
          push_tokens =
              pf.push_tokens.update_many (is_token_of user_id encrypted)
                (λ t. record t { platform = platform }) h.push_tokens;
        }
        else record h {
          push_tokens =
              pf.push_tokens.create
                (record { user_id = user_id; token = encrypted; platform = platform })
                h.push_tokens;
        }

  unfoldable pub decrypt_all : String → List (ℕ × PushToken) → Action (List String)
  decrypt_all key [] = pure []
  decrypt_all key ((i, t) ∷ l) = do
    token ← decrypt_secret t.token key
    tokens ← decrypt_all key l
    pure (token ∷ tokens)

  unfoldable pub push_to : List (ℕ × PushToken) → String → String → String → Action (Unit {0})
  push_to [] key title body = pure tt
  push_to (t ∷ l) key title body = do
    tokens ← decrypt_all key (t ∷ l)
    send (push tokens title body)

  -- A failing `sendEachForMulticast` is only logged.
  unfoldable pub send_push : ℕ → String → String → Action (Unit {0})
  send_push user_id title body h =
      if not h.push_app
      then pure tt h
      else (do
        key ← push_token_enc_key
        tokens ←
            gets λ g.
              pf.push_tokens.find_many (λ _ _. true) (λ _ t. t.user_id == user_id) g.push_tokens
        push_to tokens key title body)
          h
