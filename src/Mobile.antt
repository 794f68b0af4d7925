-- ===== src/Mobile.antt =====
-- mobile-app/App.tsx: how the app reaches the hub. A callback keeps the address that was active when it
-- was made, while what it sets is seen by the next one.
pub mod Display
pub mod Wording
pub mod Results
pub mod Items
pub mod Screen
pub mod Parts
pub mod Views
pub mod Pages
pub mod Taps
pub mod Offers
pub mod PageOffers
pub mod Decided
pub mod Shown
pub mod Requests
use code_caller.Prelude.{
  ℕ, ◌≡◌, String, ◌<>◌, Bool, true, false, not, ◌&&◌, Option, none, some, List, [], ◌∷◌, ◌==◌, leb,
  str_eq, if◌then◌else◌,
}
use code_caller.Text.{decimal}

pub record AuthTokens : Type 0 where
  pub access_token : String
  pub refresh_token : String

-- `RequestInit`: what the callbacks pass to `fetch`
pub record RequestInit : Type 0 where
  pub method : String
  pub authorization : Option String
  pub body : Option String

pub record Response : Type 0 where
  pub status : ℕ
  pub text : String

-- A call of `fetch` is answered, or is rejected with an error or aborted after the timeout.
pub data Fetched : Type 0 where
  answered : Response → Fetched
  rejected : String → Fetched

-- A value that `JSON.parse` gives.
pub data Json (Other : Type 0) : Type 0 where
  null : Json Other
  text : String → Json Other
  other : Other → Json Other

-- What the app runs on: the network, and the functions on JSON.
pub record Device : Type 1 where
  pub Network : Type 0
  pub fetch : String → RequestInit → Network → Fetched × Network
  pub Other : Type 0
  pub json_parse : String → Option (Json Other)
  pub json_stringify : Other → String
  -- `JSON.stringify({ refreshToken })` and `JSON.stringify({ email, password })`
  pub refresh_body : String → String
  pub login_body : String → String → String
  -- The cast of an answer to its two fields; `null` has none.
  pub as_tokens : Json Other → Option AuthTokens
  pub trim : String → String

pub data Outcome (A : Type 0) : Type 0 where
  done : A → Outcome A
  thrown : String → Outcome A

-- `API_BASE_URLS`
abbrev pub api_base_urls : List String
api_base_urls = "http://172.30.1.83:3000" ∷ "http://100.92.64.11:3000" ∷ []

abbrev pub other_urls : String → List String → List String
other_urls active [] = []
other_urls active (u ∷ l) = if str_eq u active then other_urls active l else u ∷ other_urls active l

-- `response.ok`
abbrev pub is_ok : Response → Bool
is_ok r = leb 200 r.status && leb r.status 299

module _ ⦃dev : Device⦄ where
  -- The state that the requests read and set; `stored_token` is the key of AsyncStorage.
  pub record Phone : Type 0 where
    pub network : dev.Network
    pub tokens : Option AuthTokens
    pub stored_token : Option String
    pub active_url : String
    pub password : String
    pub busy : Bool
    pub error : Option String

  abbrev pub Step : Type 0 → Type 0
  Step A = Phone → Outcome A × Phone

infixl 5 ◌>>=◌ ◌>>◌
abbrev pub ◌>>=◌ : ⦃dev : Device⦄ {A B : Type 0} → Step A → (A → Step B) → Step B
◌>>=◌ m f p = let (r, p') = m p in elim r [ done a ↦ f a p' | thrown e ↦ (thrown e, p') ]

abbrev pub ◌>>◌ : ⦃dev : Device⦄ {A B : Type 0} → Step A → Step B → Step B
m >> k = m >>= λ _. k

module _ ⦃dev : Device⦄ where
  -- `if (baseUrl !== activeApiBaseUrl) setActiveApiBaseUrl(baseUrl)`, for the address that the
  -- callback keeps
  abbrev pub activate : String → String → Phone → Phone
  activate active u p = if str_eq u active then p else record p { active_url = u }

  -- the loop of `fetchHub`, with the last error
  unfoldable pub fetch_from :
      String → String → List String → RequestInit → Option String → Step Response
  fetch_from active path [] options none p = (thrown (path <> " failed: Hub API is unreachable"), p)
  fetch_from active path [] options (some e) p = (thrown e, p)
  fetch_from active path (u ∷ l) options last p =
      let (r, n) = dev.fetch (u <> path) options p.network in
      elim r [
        | answered response ↦ (done response, activate active u (record p { network = n }))
        | rejected e ↦ fetch_from active path l options (some e) (record p { network = n })
      ]

  -- `fetchHub`, for the address that was active when the callback was made
  unfoldable pub fetch_hub : String → String → RequestInit → Step Response
  unfolding fetch_from
  fetch_hub active path options =
      fetch_from active path (active ∷ other_urls active api_base_urls) options none

  unfoldable pub parse_json : Response → Step (Json dev.Other)
  parse_json response p =
      if str_eq response.text "" then (done null, p) else elim (dev.json_parse response.text) [
        | none ↦ (thrown "JSON Parse error", p)
        | some j ↦ (done j, p)
      ]

  abbrev pub summarize : Json dev.Other → String
  summarize null = ""
  summarize (text s) = s
  summarize (other o) = dev.json_stringify o

  abbrev pub save_tokens : Option AuthTokens → Phone → Phone
  save_tokens none p = record p { tokens = none; stored_token = none }
  save_tokens (some t) p = record p { tokens = some t; stored_token = some t.refresh_token }

  abbrev pub post : String → RequestInit
  post body = record { method = "POST"; authorization = none; body = some body }

  abbrev throw_unless : Bool → String → Step (Unit {0})
  throw_unless b e p = (if b then done tt else thrown e, p)

  -- Where the answer was `null`, its field cannot be read.
  abbrev tokens_or_throw : Option AuthTokens → Step AuthTokens
  tokens_or_throw none p = (thrown "Cannot read property 'accessToken' of null", p)
  tokens_or_throw (some t) p = (done t, p)

  unfoldable pub refresh_session : String → String → Step (Option AuthTokens)
  unfolding fetch_hub parse_json
  refresh_session active refresh_token = do
    response ← fetch_hub active "/auth/refresh" (post (dev.refresh_body refresh_token))
    throw_unless (is_ok response) ("refresh failed (" <> (decimal response.status <> ")"))
    j ← parse_json response
    λ p. (done (dev.as_tokens j), save_tokens (dev.as_tokens j) p)

  abbrev pub authorized : RequestInit → String → RequestInit
  authorized options access_token = record options {
    authorization = some ("Bearer " <> access_token);
  }

  abbrev error_body : Response → String
  error_body response =
      if str_eq response.text ""
      then ""
      else elim (dev.json_parse response.text) [ none ↦ "" | some j ↦ summarize j ]

  -- `if (response.status === 401)`
  unfoldable pub retry_unauthorized :
      String → String → RequestInit → AuthTokens → Response → Step Response
  unfolding refresh_session fetch_hub
  retry_unauthorized active path options tokens response =
      if response.status == 401
      then (do
        next ← refresh_session active tokens.refresh_token
        refreshed ← tokens_or_throw next
        fetch_hub active path (authorized options refreshed.access_token))
      else (λ p. (done response, p))

  -- `request`, for the tokens and the address of the callback
  unfoldable pub request : Option AuthTokens → String → String → RequestInit → Step (Json dev.Other)
  unfolding retry_unauthorized fetch_hub parse_json
  request none active path options p = (thrown "not authenticated", p)
  request (some tokens) active path options p =
      (do
        first ← fetch_hub active path (authorized options tokens.access_token)
        response ← retry_unauthorized active path options tokens first
        throw_unless (is_ok response) (
            dev.trim
              (path <> (" failed (" <> (decimal response.status <> (") " <> error_body response)))))
        parse_json response)
        p

  -- `try { … } catch (err) { setError(…) } finally { setBusy(false) }`
  abbrev reporting : Step (Unit {0}) → Phone → Phone
  reporting m p =
      let (r, p') = m (record p { busy = true; error = none }) in
      elim r [
        | done _ ↦ record p' { busy = false }
        | thrown e ↦ record p' { busy = false; error = some e }
      ]

  -- `login`
  unfoldable pub login : String → String → Phone → Phone
  unfolding fetch_hub parse_json
  login active email p =
      reporting
        (do
          response ←
              fetch_hub active "/auth/login" (post (dev.login_body (dev.trim email) p.password))
          throw_unless (is_ok response) ("login failed (" <> (decimal response.status <> ")"))
          j ← parse_json response
          λ q. (done tt, record (save_tokens (dev.as_tokens j) q) { password = "" }))
        p
