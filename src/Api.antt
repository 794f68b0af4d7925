-- ===== src/Api.antt =====
-- The HTTP interface of the hub: the controllers of hub-api/src with the guard
-- hub-api/src/auth/guards/jwt-auth.guard.ts. The router of the framework, which finds the route and
-- its parameters, is not modelled: a route is given with the ids and queries of its address.
pub mod Bodies
mod Answers
pub use Answers.*
pub mod Refusals
pub mod Access
pub mod Creation
pub mod Foreign
pub mod Isolation
pub mod Spared
pub mod Elsewhere
pub mod Clients
use code_caller.Prelude.{
  ℕ, String, Bool, true, false, Option, none, some, List, [], ◌∷◌, str_eq, ◌==◌, if◌then◌else◌,
}
use code_caller.Schema.{ServerStatus, ApprovalStatus, Task, Approval}
use code_caller.Platform.{Platform}
use code_caller.Hub.{Hub, Result, ok, err, Error, ErrorKind, Action, pure, raise, ◌>>=◌}
use code_caller.Gateway.Apps.{user_of}
use code_caller.Auth.{TokenPair, login, refresh, logout}
use code_caller.Tasks.{submit, find_all_for_owner, find_one_for_owner_task, cancel}
use code_caller.Servers
use code_caller.Servers.{PublicServer}
use code_caller.Registrations
use code_caller.Registrations.{PublicRequest, DaemonResult, find_pending_for_owner}
use code_caller.RegistrationDecisions
use code_caller.RegistrationResults.{get_result}
use code_caller.Approvals
use code_caller.Approvals.{DecideApproval, list_for_owner}
use code_caller.Notifications.{register_push_token}
use code_caller.Api.Bodies.{
  Body, Web, login_dto, refresh_dto, create_task_dto, create_server_dto, create_request_dto,
  decide_dto, push_token_dto,
}

-- The handlers of the controllers, by controller; each says what it takes from the address.
pub data Route : Type 0 where
  -- auth.controller.ts
  post_login post_refresh post_logout : Route
  -- tasks.controller.ts
  post_task get_tasks : Route
  get_task post_cancel : (id : ℕ) → Route
  -- servers.controller.ts
  post_server get_servers : Route
  get_server get_health delete_server : (id : ℕ) → Route
  -- server-registrations.controller.ts
  post_registration get_registrations : Route
  get_registration_result : (id : ℕ) → (secret : Option String) → Route
  post_registration_decision : (id : ℕ) → Route
  -- approvals.controller.ts
  get_approvals : (status : Option String) → Route
  post_approval_decision : (id : ℕ) → Route
  -- notifications.controller.ts
  post_push_token : Route

pub record Request : Type 0 where
  pub route : Route
  pub authorization : Option String
  pub body : Body

-- `ApprovalStatus` of a text
unfoldable pub approval_status_of : String → Option ApprovalStatus
approval_status_of s =
    if str_eq s "PENDING"
    then some ApprovalStatus.pending
    else if str_eq s "APPROVED"
    then some ApprovalStatus.approved
    else if str_eq s "REJECTED"
    then some ApprovalStatus.rejected
    else none

abbrev pub or_empty : Option String → String
or_empty none = ""
or_empty (some s) = s

module _ ⦃pf : Platform⦄ (web : Web) where
  -- The user of the guard: `JwtStrategy.validate` for the token of the header.
  unfoldable pub current_user : Option String → Hub → Option ℕ
  current_user authorization h = elim authorization [
    | none ↦ none
    | some header ↦ user_of h.clock (web.bearer_token header)
  ]

  -- `JwtAuthGuard` before a handler
  abbrev pub guarded : Option String → (ℕ → Hub → Answer × Hub) → Hub → Answer × Hub
  guarded authorization k h = elim (current_user authorization h) [
    | none ↦ (refused 401 "Unauthorized", h)
    | some user_id ↦ k user_id h
  ]

  -- `ApprovalsController.findAll`; the cast of the query is not checked, so that Prisma throws an
  -- error at a text that is no status.
  unfoldable pub find_approvals : ℕ → Option String → Action (List (ℕ × Approval × Option Task))
  find_approvals user_id none = list_for_owner user_id none
  find_approvals user_id (some status) =
      let name = web.to_upper_case status in
      if str_eq name "" then list_for_owner user_id none else elim (approval_status_of name) [
        | none ↦ raise ErrorKind.database pf.prisma_message
        | some s ↦ list_for_owner user_id (some s)
      ]

  -- auth.controller.ts
  abbrev pub login_handler : Body → Hub → Answer × Hub
  login_handler body =
      validated (login_dto web body) λ (email, password). answered 200 tokens (login email password)

  abbrev pub refresh_handler : Body → Hub → Answer × Hub
  refresh_handler body =
      validated (refresh_dto web body) λ token. answered 200 tokens (refresh token)

  abbrev pub logout_handler : Body → Hub → Answer × Hub
  logout_handler body =
      validated (refresh_dto web body) λ token. answered 204 (λ _. nothing) (logout token)

  -- server-registrations.controller.ts, without a guard
  abbrev pub create_request_handler : Body → Hub → Answer × Hub
  create_request_handler body =
      validated (create_request_dto web body)
        λ dto. answered 201 new_registration (Registrations.create dto)

  abbrev pub result_handler : ℕ → Option String → Hub → Answer × Hub
  result_handler id secret = answered 200 registration_result (get_result id (or_empty secret))

  -- tasks.controller.ts
  abbrev pub submit_handler : Body → ℕ → Hub → Answer × Hub
  submit_handler body user_id =
      validated (create_task_dto web body) λ dto. answered 201 task (submit user_id dto)

  abbrev pub tasks_handler : ℕ → Hub → Answer × Hub
  tasks_handler user_id = answered 200 task_list (find_all_for_owner user_id)

  abbrev pub task_handler : ℕ → ℕ → Hub → Answer × Hub
  task_handler id user_id = answered 200 task (find_one_for_owner_task user_id id)

  abbrev pub cancel_handler : ℕ → ℕ → Hub → Answer × Hub
  cancel_handler id user_id = answered 201 task (cancel user_id id)

  -- servers.controller.ts
  abbrev pub create_server_handler : Body → ℕ → Hub → Answer × Hub
  create_server_handler body user_id =
      validated (create_server_dto web body)
        λ dto. answered 201 new_server (Servers.create user_id dto)

  abbrev pub servers_handler : ℕ → Hub → Answer × Hub
  servers_handler user_id = answered 200 server_list (Servers.find_all_for_owner user_id)

  abbrev pub server_handler : ℕ → ℕ → Hub → Answer × Hub
  server_handler id user_id = answered 200 server (Servers.find_one_for_owner user_id id)

  abbrev pub health_handler : ℕ → ℕ → Hub → Answer × Hub
  health_handler id user_id = answered 200 health (Servers.get_health user_id id)

  abbrev pub remove_handler : ℕ → ℕ → Hub → Answer × Hub
  remove_handler id user_id = answered 200 (λ _. nothing) (Servers.remove user_id id)

  -- server-registrations.controller.ts
  abbrev pub requests_handler : ℕ → Hub → Answer × Hub
  requests_handler user_id = answered 200 registration_list (find_pending_for_owner user_id)

  abbrev pub decide_request_handler : ℕ → Body → ℕ → Hub → Answer × Hub
  decide_request_handler id body user_id =
      validated (decide_dto web body)
        λ dto. answered 201 registration (RegistrationDecisions.decide user_id id dto.approve)

  -- approvals.controller.ts
  abbrev pub approvals_handler : Option String → ℕ → Hub → Answer × Hub
  approvals_handler status user_id = answered 200 approval_list (find_approvals user_id status)

  abbrev pub decide_handler : ℕ → Body → ℕ → Hub → Answer × Hub
  decide_handler id body user_id =
      validated (decide_dto web body) λ dto. answered 201 approval (Approvals.decide user_id id dto)

  -- notifications.controller.ts
  abbrev pub push_token_handler : Body → ℕ → Hub → Answer × Hub
  push_token_handler body user_id =
      validated (push_token_dto web body) λ (token, platform).
        answered 204 (λ _. nothing) (register_push_token user_id token platform)

  -- The handlers behind the guard, for its user.
  unfoldable pub handle_user : Route → Body → ℕ → Hub → Answer × Hub
  handle_user post_task body user_id = submit_handler body user_id
  handle_user get_tasks body user_id = tasks_handler user_id
  handle_user (get_task id) body user_id = task_handler id user_id
  handle_user (post_cancel id) body user_id = cancel_handler id user_id
  handle_user post_server body user_id = create_server_handler body user_id
  handle_user get_servers body user_id = servers_handler user_id
  handle_user (get_server id) body user_id = server_handler id user_id
  handle_user (get_health id) body user_id = health_handler id user_id
  handle_user (delete_server id) body user_id = remove_handler id user_id
  handle_user get_registrations body user_id = requests_handler user_id
  handle_user (post_registration_decision id) body user_id = decide_request_handler id body user_id
  handle_user (get_approvals status) body user_id = approvals_handler status user_id
  handle_user (post_approval_decision id) body user_id = decide_handler id body user_id
  handle_user post_push_token body user_id = push_token_handler body user_id
  handle_user _ body user_id = λ h. (refused 404 "Not Found", h)

  -- A request from the router to its answer.
  unfoldable pub handle : Request → Hub → Answer × Hub
  handle r = elim r.route [
    | post_login ↦ login_handler r.body
    | post_refresh ↦ refresh_handler r.body
    | post_logout ↦ logout_handler r.body
    | post_registration ↦ create_request_handler r.body
    | get_registration_result id secret ↦ result_handler id secret
    | _ ↦ guarded r.authorization (handle_user r.route r.body)
  ]
