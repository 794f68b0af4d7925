-- ===== src/Auth.antt =====
-- hub-api/src/auth/auth.service.ts.
pub mod Sessions
use code_caller.Prelude.{
  ℕ, ◌+◌, String, ◌<>◌, Bool, true, false, not, ◌&&◌, Option, none, some, ◌==◌, str_eq, ltb,
}
use code_caller.Schema.{RefreshToken}
use code_caller.Platform.{Platform, Claims}
use code_caller.Hub.{
  Hub, Action, ErrorKind, pure, or_raise, raise_if, gets, modify, draw, ◌>>=◌, ◌>>◌,
}
use code_caller.Duration.{duration_to_ms}

pub record TokenPair : Type 0 where
  pub access_token : String
  pub refresh_token : String

module _ ⦃pf : Platform⦄ where
  -- `config.getOrThrow`
  abbrev pub config_or_throw : String → Action String
  config_or_throw name =
      or_raise (pf.env name) ErrorKind.plain
        ("Configuration key \"" <> (name <> "\" does not exist"))

  -- `config.get` with a default
  abbrev pub config_get : String → String → String
  config_get name fallback = elim (pf.env name) [ none ↦ fallback | some v ↦ v ]

  abbrev pub hash_token : String → String
  hash_token token = pf.sha256 token

  abbrev pub claims : ℕ → String → Option String → Claims
  claims user_id email jti = record { sub = user_id; email = email; jti = jti }

  unfoldable pub refresh_token_create : RefreshToken → Action (Unit {0})
  refresh_token_create t =
      modify λ h. record h { refresh_tokens = pf.refresh_tokens.create t h.refresh_tokens }

  unfoldable pub issue_token_pair : ℕ → String → Action TokenPair
  unfolding refresh_token_create
  issue_token_pair user_id email = do
    now ← gets (λ h. h.clock)
    access_secret ← config_or_throw "JWT_ACCESS_SECRET"
    let access_token =
        pf.jwt_sign access_secret (claims user_id email none)
          (config_get "JWT_ACCESS_EXPIRES_IN" "15m") now
    let refresh_expires_in = config_get "JWT_REFRESH_EXPIRES_IN" "30d"
    n ← draw
    refresh_secret ← config_or_throw "JWT_REFRESH_SECRET"
    let refresh_token =
        pf.jwt_sign refresh_secret (claims user_id email (some (pf.random_uuid n)))
          refresh_expires_in now
    lifetime ←
        or_raise (duration_to_ms refresh_expires_in) ErrorKind.plain
          ("Invalid duration format: " <> refresh_expires_in)
    refresh_token_create (record {
      user_id = user_id;
      token_hash = hash_token refresh_token;
      revoked = false;
      expires_at = now + lifetime;
    })
    pure (record { access_token = access_token; refresh_token = refresh_token })

  unfoldable pub login : String → String → Action TokenPair
  unfolding issue_token_pair
  login email password = do
    found ← gets (λ h. pf.users.find_first (λ _. 0) (λ _ u. str_eq u.email email) h.users)
    (user_id, user) ← or_raise found ErrorKind.unauthorized "이메일 또는 비밀번호가 올바르지 않습니다."
    raise_if (not (pf.bcrypt_compare password user.password_hash)) ErrorKind.unauthorized
        "이메일 또는 비밀번호가 올바르지 않습니다."
    issue_token_pair user_id user.email

  -- `verifyRefreshToken`: a missing secret is caught as well
  abbrev pub verified : String → ℕ → Option Claims
  verified token now = elim (pf.env "JWT_REFRESH_SECRET") [
    | none ↦ none
    | some secret ↦ pf.jwt_verify secret token now
  ]

  unfoldable pub verify_refresh_token : String → Action Claims
  verify_refresh_token token = do
    now ← gets (λ h. h.clock)
    or_raise (verified token now) ErrorKind.unauthorized "유효하지 않은 refresh token 입니다."

  -- `userId, tokenHash, revoked: false`
  abbrev pub is_live_token : ℕ → String → RefreshToken → Bool
  is_live_token user_id token_hash t =
      t.user_id == user_id && (str_eq t.token_hash token_hash && not t.revoked)

  abbrev pub revoke : RefreshToken → RefreshToken
  revoke t = record t { revoked = true }

  -- the live row of a token, not expired: `expiresAt: { gt: now }`
  unfoldable pub stored_token : ℕ → String → Hub → Option (ℕ × RefreshToken)
  stored_token user_id token_hash h =
      pf.refresh_tokens.find_first (λ _. 0)
        (λ _ t. is_live_token user_id token_hash t && ltb h.clock t.expires_at) h.refresh_tokens

  unfoldable pub refresh : String → Action TokenPair
  unfolding verify_refresh_token stored_token issue_token_pair
  refresh refresh_token = do
    payload ← verify_refresh_token refresh_token
    found ← gets (stored_token payload.sub (hash_token refresh_token))
    (i, _) ← or_raise found ErrorKind.unauthorized "유효하지 않은 refresh token 입니다."
    modify λ h. record h { refresh_tokens = pf.refresh_tokens.update i revoke h.refresh_tokens }
    issue_token_pair payload.sub payload.email

  unfoldable pub logout : String → Action (Unit {0})
  logout refresh_token h = elim (verified refresh_token h.clock) [
    | none ↦ pure tt h
    | some payload ↦ pure tt (record h {
      refresh_tokens =
          pf.refresh_tokens.update_many
            (λ _ t. is_live_token payload.sub (hash_token refresh_token) t) revoke h.refresh_tokens;
    })
  ]
