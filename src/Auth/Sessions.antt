-- ===== src/Auth/Sessions.antt =====
-- What a session survives (hub-api/src/auth/auth.service.ts).
use code_caller.Prelude.{
  ℕ, ◌≡◌, refl, String, true, false, ◌&&◌, none, some, arith, ==_refl, ◌+◌, ◌≢◌, str_eq, eq_iff,
  ltb, is_some, ◌<◌, inl, inr, Option-cases,
}
use code_caller.Schema.{User, RefreshToken}
use code_caller.Platform.{Platform, Claims}
use code_caller.Hub.{Hub, Error, ErrorKind, ok, err}
use code_caller.Auth.{
  TokenPair, login, refresh, logout, verified, hash_token, stored_token, is_live_token, revoke,
  issue_token_pair, config_get, claims,
}
use code_caller.Duration.{duration_to_ms}

module _ ⦃pf : Platform⦄ where
  -- the one answer to an unknown address and to a wrong password
  abbrev pub bad_credentials : Error
  bad_credentials = record { kind = ErrorKind.unauthorized; message = "이메일 또는 비밀번호가 올바르지 않습니다." }

  abbrev pub bad_token : Error
  bad_token = record { kind = ErrorKind.unauthorized; message = "유효하지 않은 refresh token 입니다." }

module _ ⦃pf : Platform⦄ (email password : String) (h : Hub)
    (unknown : (i : ℕ) (u : User)
      → pf.users.find_unique i h.users ≡ some u
      → u.email ≡ email
      → pf.bcrypt_compare password u.password_hash ≡ false) where
  -- If no account with the address accepts the password, a login is refused, with one and the
  -- same error for an unknown address and for a wrong password, and nothing changes.
  pub login_refused : login email password h ≡ (err bad_credentials, h)
  unfolding login
  login_refused =
      let p = λ (_ : ℕ) (u : User). str_eq u.email email in
      elim (Option-cases (pf.users.find_first (λ _. 0) p h.users)) [
        | inl nobody ↦ ground arith
        | inr ((i, u), e) ↦
            let (there, same) = pf.users.find_first_sound (λ _. 0) p h.users i u e in
            let wrong = unknown i u there ((eq_iff u.email email).0 same) in ground arith
      ]

module _ ⦃pf : Platform⦄ (token : String) (h : Hub) {payload : Claims}
    (valid : verified token h.clock ≡ some payload) where
  -- No row of a token is live after its logout.
  none_live :
      (g : Hub) → (logout token h).1 ≡ g → stored_token payload.sub (hash_token token) g ≡ none
  unfolding stored_token logout
  none_live g e = elim (Option-cases (stored_token payload.sub (hash_token token) g)) [
    | inl nobody ↦ nobody
    | inr ((i, t), f) ↦
        let (there, live) =
          pf.refresh_tokens.find_first_sound (λ _. 0)
            (λ _ t. is_live_token payload.sub (hash_token token) t && ltb g.clock t.expires_at)
            g.refresh_tokens i t f in
        absurd (
          ground (
            arith,
            pf.refresh_tokens.find-update_many
                (λ _ t. is_live_token payload.sub (hash_token token) t) revoke i h.refresh_tokens,
          ))
  ]

  -- After a logout with a valid refresh token, refreshing with that token is refused and changes
  -- nothing.
  pub refresh_after_logout : refresh token (logout token h).1 ≡ (err bad_token, (logout token h).1)
  unfolding refresh logout
  refresh_after_logout = ground (arith, none_live (logout token h).1 refl)

module _ ⦃pf : Platform⦄ where
  -- What `issueTokenPair` adds, where it succeeds.
  issued :
      (user_id : ℕ) (email : String) (h : Hub) {pair : TokenPair}
      → (issue_token_pair user_id email h).0 ≡ ok pair
      → (row : RefreshToken) × (ms : ℕ) × (duration_to_ms
            (config_get "JWT_REFRESH_EXPIRES_IN" "30d")
          ≡ some ms)
        × (row.user_id ≡ user_id)
        × (row.token_hash ≡ hash_token pair.refresh_token)
        × (row.revoked ≡ false)
        × (row.expires_at ≡ h.clock + ms)
        × ((issue_token_pair user_id email h).1.refresh_tokens
            ≡ pf.refresh_tokens.create row h.refresh_tokens)
  unfolding issue_token_pair
  issued user_id email h done = elim (Option-cases (pf.env "JWT_ACCESS_SECRET")) [
    | inl missing ↦ absurd (ground arith)
    | inr (access, e) ↦ elim (Option-cases (pf.env "JWT_REFRESH_SECRET")) [
      | inl missing ↦ absurd (ground arith)
      | inr (secret, f) ↦
          let lifetime = config_get "JWT_REFRESH_EXPIRES_IN" "30d" in
          elim (Option-cases (duration_to_ms lifetime)) [
            | inl wrong ↦ absurd (ground arith)
            | inr (ms, g) ↦ (
              record {
                user_id = user_id;
                token_hash = hash_token (
                    pf.jwt_sign secret (claims user_id email (some (pf.random_uuid h.draws)))
                      lifetime h.clock);
                revoked = false;
                expires_at = h.clock + ms;
              },
              ms,
              g,
              refl,
              ground arith,
              refl,
              refl,
              ground arith,
            )
          ]
    ]
  ]

  -- A live row is found until it expires.
  live_found :
      (user_id : ℕ) (token_hash : String) (h : Hub) (j : ℕ) (r : RefreshToken)
      → pf.refresh_tokens.find_unique j h.refresh_tokens ≡ some r
      → is_live_token user_id token_hash r ≡ true
      → ltb h.clock r.expires_at ≡ true
      → is_some (stored_token user_id token_hash h) ≡ true
  unfolding stored_token
  live_found user_id token_hash h j r there live soon =
      elim (Option-cases (stored_token user_id token_hash h)) [
        | inr (found, e) ↦ ground (arith, e)
        | inl nobody ↦
            let p = λ (_ : ℕ) (t : RefreshToken).
              is_live_token user_id token_hash t && ltb h.clock t.expires_at in
            absurd (
              ground (
                arith,
                live,
                soon,
                pf.refresh_tokens.find_first_none (λ _. 0) p h.refresh_tokens j r nobody there,
              ))
      ]

  keeps_row :
      (row r : RefreshToken) (i : ℕ) (rows : pf.refresh_tokens.Rows)
      → pf.refresh_tokens.find_unique i rows ≡ some r
      → pf.refresh_tokens.find_unique i (pf.refresh_tokens.create row rows) ≡ some r
  keeps_row row r i rows there =
      ground (arith, pf.refresh_tokens.find-create row i rows, pf.refresh_tokens.find-next_id rows)

module _ ⦃pf : Platform⦄ (token : String) (h : Hub) {payload : Claims} {i : ℕ} {t : RefreshToken}
    (valid : verified token h.clock ≡ some payload)
    (stored : stored_token payload.sub (hash_token token) h ≡ some (i, t)) where
  used_up : Hub
  used_up = record h { refresh_tokens = pf.refresh_tokens.update i revoke h.refresh_tokens }

  refresh_run : refresh token h ≡ issue_token_pair payload.sub payload.email used_up
  unfolding refresh used_up
  refresh_run = ground arith

  same_clock : used_up.clock ≡ h.clock
  unfolding used_up
  same_clock = refl

  used_up_row : pf.refresh_tokens.find_unique i used_up.refresh_tokens ≡ some (revoke t)
  unfolding used_up stored_token
  used_up_row =
      let (there, live) =
        pf.refresh_tokens.find_first_sound (λ _. 0)
          (λ _ t. is_live_token payload.sub (hash_token token) t && ltb h.clock t.expires_at)
          h.refresh_tokens i t stored in
      ground (arith, pf.refresh_tokens.find-update i revoke i h.refresh_tokens)

  -- A refresh with a valid, stored token that succeeds leaves the stored row revoked, and the new
  -- token's hash in another row of the same user, which is not revoked and expires once the
  -- configured lifetime has passed; until then, if nothing but the clock changes, the hub finds a
  -- row for the new token.
  pub refresh_rotates :
      {pair : TokenPair}
      → (refresh token h).0 ≡ ok pair
      → let h' = (refresh token h).1 in
        let hashed = hash_token pair.refresh_token in
        (pf.refresh_tokens.find_unique i h'.refresh_tokens ≡ some (revoke t))
        × ((ms : ℕ) × (duration_to_ms (config_get "JWT_REFRESH_EXPIRES_IN" "30d") ≡ some ms)
            × ((j : ℕ) × (r : RefreshToken) × (pf.refresh_tokens.find_unique j h'.refresh_tokens
                  ≡ some r)
                × (is_live_token payload.sub hashed r ≡ true)
                × (r.expires_at ≡ h.clock + ms)
                × (j ≢ i))
            × ((now : ℕ)
                → now < h.clock + ms
                → is_some (stored_token payload.sub hashed (record h' { clock = now })) ≡ true))
  refresh_rotates {pair} done =
      let new =
        issued payload.sub payload.email used_up {pair = pair} (ground (arith, refresh_run)) in
      let (row, ms, lasts, its, hashed, unrevoked, ends, added) = new in
      let rows = used_up.refresh_tokens in
      let j = pf.refresh_tokens.next_id rows in
      let h' = (refresh token h).1 in
      let lasting : row.expires_at ≡ h.clock + ms = ground (arith, ends, same_clock) in
      let there : pf.refresh_tokens.find_unique j h'.refresh_tokens ≡ some row =
        ground (arith, refresh_run, pf.refresh_tokens.find-create row j rows, ==_refl j) in
      let live : is_live_token payload.sub (hash_token pair.refresh_token) row ≡ true = ground (
        arith,
        ==_refl payload.sub,
        (eq_iff row.token_hash (hash_token pair.refresh_token)).1 hashed,
      ) in
      (
        ground (arith, refresh_run, keeps_row row (revoke t) i rows used_up_row),
        (
          ms,
          lasts,
          (
            j,
            row,
            there,
            live,
            lasting,
            λ e. ground (arith, used_up_row, pf.refresh_tokens.find-next_id rows),
          ),
          λ now soon.
              live_found payload.sub (hash_token pair.refresh_token) (record h' { clock = now }) j
                row there live (ground (arith, lasting, soon)),
        ),
      )
