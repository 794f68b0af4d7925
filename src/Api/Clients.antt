-- ===== src/Api/Clients.antt =====
-- The requests with a body that the app makes (mobile-app/App.tsx), as the hub's controllers read
-- them. An id of the app is a number here, and a text in a request: the text is a parameter, as is
-- `JSON.stringify` of a prompt.
use code_caller.Prelude.{
  ℕ, String, ◌≡◌, refl, Bool, ◌&&◌, true, false, Option, none, some, [], ◌∷◌, arith,
}
use code_caller.Schema.{WorkerType, PushPlatform}
use code_caller.Platform.{Platform}
use code_caller.Hub.{Hub}
use code_caller.Workers.{worker_type_name}
use code_caller.Auth.{login, refresh, logout}
use code_caller.Tasks.{submit}
use code_caller.RegistrationDecisions
use code_caller.Approvals
use code_caller.Notifications.{register_push_token}
use code_caller.Mobile.Items.{
  Call, decide_approval_call, decide_registration_call, create_task_call, push_token_call,
  logout_call,
}
use code_caller.Api.Bodies.{
  Json, Body, Web, field, login_dto, refresh_dto, create_task_dto, decide_dto, push_token_dto,
  worker_type_of, push_platform_of,
}
use code_caller.Api.{
  Request, Answer, handle, handle_user, current_user, answered, post_approval_decision,
  post_registration_decision, post_task, post_push_token, post_logout, post_login, post_refresh,
  tokens, task, approval, registration, nothing,
}

abbrev pub decision_body : Bool → String → Body
decision_body approve reason =
    ("approve", Json.boolean approve) ∷ ("reason", Json.string reason) ∷ []

abbrev pub push_token_body : String → Body
push_token_body token = ("token", Json.string token) ∷ ("platform", Json.string "ANDROID") ∷ []

-- The body of `logout` and of `refreshSession`.
abbrev pub token_body : String → Body
token_body refresh_token = ("refreshToken", Json.string refresh_token) ∷ []

abbrev pub credentials_body : String → String → Body
credentials_body email password =
    ("email", Json.string email) ∷ ("password", Json.string password) ∷ []

-- All requests with a body: those of a session, the login, with the address as it was trimmed, and
-- the renewal of a session.
pub data Post : Type 0 where
  login_post : (email : String) → (password : String) → Post
  refresh_post : (refresh_token : String) → Post
  call_post : Call → Post

module _ (id_text : ℕ → String) (prompt_json : String → String) where
  abbrev pub task_body : ℕ → WorkerType → String → Body
  task_body server_id w prompt =
      ("serverId", Json.string (id_text server_id))
      ∷ ("workerType", Json.string (worker_type_name w))
      ∷ ("input", Json.object false (prompt_json prompt))
      ∷ []

  -- A request with the header of a session.
  unfoldable pub request_of : Option String → Post → Request
  request_of authorization (login_post email password) = record {
    route = post_login;
    authorization = none;
    body = credentials_body email password;
  }
  request_of authorization (refresh_post refresh_token) = record {
    route = post_refresh;
    authorization = none;
    body = token_body refresh_token;
  }
  request_of authorization (call_post (decide_approval_call i approve reason)) = record {
    route = post_approval_decision i;
    authorization = authorization;
    body = decision_body approve reason;
  }
  request_of authorization (call_post (decide_registration_call i approve reason)) = record {
    route = post_registration_decision i;
    authorization = authorization;
    body = decision_body approve reason;
  }
  request_of authorization (call_post (create_task_call server_id w prompt)) = record {
    route = post_task;
    authorization = authorization;
    body = task_body server_id w prompt;
  }
  request_of authorization (call_post (push_token_call token)) = record {
    route = post_push_token;
    authorization = authorization;
    body = push_token_body token;
  }
  request_of authorization (call_post (logout_call refresh_token)) = record {
    route = post_logout;
    authorization = none;
    body = token_body refresh_token;
  }

-- What class-validator has to find of the texts of a request.
abbrev pub is_wellformed : Web → (ℕ → String) → Post → Bool
is_wellformed web id_text (login_post email password) =
    web.is_email email && web.has_length 8 password
is_wellformed web id_text (call_post (create_task_call server_id w prompt)) =
    web.is_uuid (id_text server_id)
is_wellformed web id_text (call_post (push_token_call token)) = web.has_length 1 token
is_wellformed web id_text _ = true

module _ ⦃pf : Platform⦄ (prompt_json : String → String) (user_id : ℕ) where
  -- What a request means: an operation of a service for the user.
  unfoldable pub meaning : Post → Hub → Answer × Hub
  meaning (login_post email password) = answered 200 tokens (login email password)
  meaning (refresh_post refresh_token) = answered 200 tokens (refresh refresh_token)
  meaning (call_post (decide_approval_call i approve reason)) =
      answered 201 approval
        (Approvals.decide user_id i (record { approve = approve; reason = some (some reason) }))
  meaning (call_post (decide_registration_call i approve reason)) =
      answered 201 registration (RegistrationDecisions.decide user_id i approve)
  meaning (call_post (create_task_call server_id w prompt)) = answered 201 task (
      submit user_id
        (record { server_id = server_id; worker_type = w; input = prompt_json prompt }))
  meaning (call_post (push_token_call token)) =
      answered 204 (λ _. nothing) (register_push_token user_id token PushPlatform.android)
  meaning (call_post (logout_call refresh_token)) =
      answered 204 (λ _. nothing) (logout refresh_token)

worker_type_of-worker_type_name : (w : WorkerType) → worker_type_of (worker_type_name w) ≡ some w
unfolding worker_type_of
worker_type_of-worker_type_name WorkerType.codex = refl
worker_type_of-worker_type_name WorkerType.claude = refl
worker_type_of-worker_type_name WorkerType.gemini = refl

module _ ⦃pf : Platform⦄ (web : Web) (id_text : ℕ → String) (prompt_json : String → String)
    (authorization : Option String) (h : Hub) {user_id : ℕ}
    (user : current_user web authorization h ≡ some user_id)
    (same_id : (i : ℕ) → web.number_of (id_text i) ≡ i) where
  -- If the hub accepts the token of the app's session, the texts of ids stand for those ids, that
  -- of a task's server is a UUID, a push token is not empty, and a login has an address of mail
  -- and a password of at least 8 characters, then each of the app's requests with a body (login,
  -- renewal of the session, logout, both decisions, a new task, a push token) passes the hub's
  -- check of the body, and the hub does and answers what the operation that the app means does,
  -- for that user where it needs one, with the very id, decision, reason, worker type, prompt,
  -- token or credentials.
  pub handle-request_of :
      (c : Post)
      → is_wellformed web id_text c ≡ true
      → handle web (request_of id_text prompt_json authorization c) h
        ≡ meaning prompt_json user_id c h
  unfolding handle handle_user request_of meaning create_task_dto decide_dto push_token_dto
      refresh_dto login_dto field push_platform_of
  handle-request_of (login_post email password) fine = ground (arith, fine)
  handle-request_of (refresh_post refresh_token) fine = refl
  handle-request_of (call_post (decide_approval_call i approve reason)) fine = ground (arith, user)
  handle-request_of (call_post (decide_registration_call i approve reason)) fine =
      ground (arith, user)
  handle-request_of (call_post (create_task_call server_id w prompt)) fine =
      ground (arith, user, fine, same_id server_id, worker_type_of-worker_type_name w)
  handle-request_of (call_post (push_token_call token)) fine = ground (arith, user, fine)
  handle-request_of (call_post (logout_call refresh_token)) fine = refl
