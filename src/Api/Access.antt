-- ===== src/Api/Access.antt =====
-- What the HTTP interface of the hub lets through (the controllers of hub-api/src).
use code_caller.Prelude.{
  ℕ, String, ◌≡◌, inl, inr, refl, true, arith, none, some, Option, ◌≤◌, ◌<◌, Option-cases,
}
use code_caller.Platform.{Platform}
use code_caller.Hub.{Hub, ErrorKind, Action, Result-cases}
use code_caller.Auth.{login, refresh, logout}
use code_caller.Tasks.{submit, find_all_for_owner, find_one_for_owner_task, cancel}
use code_caller.Servers
use code_caller.Registrations
use code_caller.Registrations.{find_pending_for_owner}
use code_caller.RegistrationDecisions
use code_caller.RegistrationResults.{get_result}
use code_caller.Approvals
use code_caller.Approvals.{list_for_owner}
use code_caller.Notifications.{register_push_token}
use code_caller.Api.Bodies.{
  Web, Body, login_dto, refresh_dto, create_task_dto, create_server_dto, create_request_dto,
  decide_dto, push_token_dto,
}
use code_caller.Api.Refusals.{
  is_client, IsCareful, login-IsCareful, refresh-IsCareful, logout-IsCareful, submit-IsCareful,
  find_all_for_owner-IsCareful, find_one_for_owner_task-IsCareful, cancel-IsCareful,
  create-IsCareful, find_pending_for_owner-IsCareful, decide-IsCareful, get_result-IsCareful,
  remove-IsCareful, find_one_for_owner-IsCareful, get_health-IsCareful, decide_approval-IsCareful,
  register_push_token-IsCareful, create_server-IsCareful, find_servers-IsCareful,
}
use code_caller.Api.{
  Route, Request, Answer, Payload, handle, handle_user, current_user, answered, validated, guarded,
  status_of, find_approvals, or_empty, post_login, post_refresh, post_logout, post_task, get_tasks,
  get_task, post_cancel, post_server, get_servers, get_server, get_health, delete_server,
  post_registration, get_registrations, get_registration_result, post_registration_decision,
  get_approvals, post_approval_decision, post_push_token, nothing, tokens, task, task_list, server,
  server_list, new_server, health, registration, registration_list, new_registration,
  registration_result, approval, approval_list,
}

client_kind : (k : ErrorKind) → 400 ≤ status_of k → status_of k < 500 → is_client k ≡ true
client_kind ErrorKind.bad_request a b = refl
client_kind ErrorKind.unauthorized a b = refl
client_kind ErrorKind.forbidden a b = refl
client_kind ErrorKind.not_found a b = refl
client_kind ErrorKind.service_unavailable a b = ground arith
client_kind ErrorKind.plain a b = ground arith
client_kind ErrorKind.database a b = ground arith

-- An answer with a status of 4xx leaves the hub as it was.
abbrev IsHarmless : ⦃pf : Platform⦄ → Answer × Hub → Hub → Type 0
IsHarmless (a, h') h = 400 ≤ a.status → a.status < 500 → h' ≡ h

module _ ⦃pf : Platform⦄ {A : Type 0} where
  answered-IsHarmless :
      (status : ℕ) (f : A → Payload) (m : Action A) (h : Hub)
      → status < 400
      → IsCareful m
      → IsHarmless (answered status f m h) h
  answered-IsHarmless status f m h low careful from to = elim (Result-cases (m h).0) [
    | inl (a, is) ↦ ground (arith, low, is)
    | inr (e, is) ↦ ground (arith, careful h, client_kind e.kind, is)
  ]

  validated-IsHarmless :
      (body : Option A) (k : A → Hub → Answer × Hub) (h : Hub)
      → ((a : A) → IsHarmless (k a h) h)
      → IsHarmless (validated body k h) h
  validated-IsHarmless none k h each = λ _ _. refl
  validated-IsHarmless (some a) k h each = each a

module _ ⦃pf : Platform⦄ (web : Web) where
  guarded-IsHarmless :
      (authorization : Option String) (k : ℕ → Hub → Answer × Hub) (h : Hub)
      → ((i : ℕ) → IsHarmless (k i h) h)
      → IsHarmless (guarded web authorization k h) h
  guarded-IsHarmless authorization k h each from to =
      elim (Option-cases (current_user web authorization h)) [
        | inl is ↦ ground (arith, is)
        | inr (i, is) ↦ ground (arith, each i, is)
      ]

  find_approvals-IsCareful :
      (i : ℕ) (status : Option String) → IsCareful (find_approvals web i status)
  unfolding find_approvals list_for_owner
  find_approvals-IsCareful i none h is = ground arith
  find_approvals-IsCareful i (some status) h is = ground arith

  handle_user-IsHarmless :
      (route : Route) (body : Body) (i : ℕ) (h : Hub)
      → IsHarmless (handle_user web route body i h) h
  unfolding handle_user
  handle_user-IsHarmless post_task body i h =
      validated-IsHarmless (create_task_dto web body) _ h
        λ dto. answered-IsHarmless 201 task (submit i dto) h (ground arith) (submit-IsCareful i dto)
  handle_user-IsHarmless get_tasks body i h =
      answered-IsHarmless 200 task_list (find_all_for_owner i) h (ground arith)
        (find_all_for_owner-IsCareful i)
  handle_user-IsHarmless (get_task id) body i h =
      answered-IsHarmless 200 task (find_one_for_owner_task i id) h (ground arith)
        (find_one_for_owner_task-IsCareful i id)
  handle_user-IsHarmless (post_cancel id) body i h =
      answered-IsHarmless 201 task (cancel i id) h (ground arith) (cancel-IsCareful i id)
  handle_user-IsHarmless post_server body i h =
      validated-IsHarmless (create_server_dto web body) _ h λ dto.
        answered-IsHarmless 201 new_server (Servers.create i dto) h (ground arith)
          (create_server-IsCareful i dto)
  handle_user-IsHarmless get_servers body i h =
      answered-IsHarmless 200 server_list (Servers.find_all_for_owner i) h (ground arith)
        (find_servers-IsCareful i)
  handle_user-IsHarmless (get_server id) body i h =
      answered-IsHarmless 200 server (Servers.find_one_for_owner i id) h (ground arith)
        (find_one_for_owner-IsCareful i id)
  handle_user-IsHarmless (get_health id) body i h =
      answered-IsHarmless 200 health (Servers.get_health i id) h (ground arith)
        (get_health-IsCareful i id)
  handle_user-IsHarmless (delete_server id) body i h =
      answered-IsHarmless 200 (λ _. nothing) (Servers.remove i id) h (ground arith)
        (remove-IsCareful i id)
  handle_user-IsHarmless get_registrations body i h =
      answered-IsHarmless 200 registration_list (find_pending_for_owner i) h (ground arith)
        (find_pending_for_owner-IsCareful i)
  handle_user-IsHarmless (post_registration_decision id) body i h =
      validated-IsHarmless (decide_dto web body) _ h λ dto.
        answered-IsHarmless 201 registration (RegistrationDecisions.decide i id dto.approve) h
          (ground arith) (decide-IsCareful i id dto.approve)
  handle_user-IsHarmless (get_approvals status) body i h =
      answered-IsHarmless 200 approval_list (find_approvals web i status) h (ground arith)
        (find_approvals-IsCareful i status)
  handle_user-IsHarmless (post_approval_decision id) body i h =
      validated-IsHarmless (decide_dto web body) _ h λ dto.
        answered-IsHarmless 201 approval (Approvals.decide i id dto) h (ground arith)
          (decide_approval-IsCareful i id dto)
  handle_user-IsHarmless post_push_token body i h =
      validated-IsHarmless (push_token_dto web body) _ h λ (token, platform).
        answered-IsHarmless 204 (λ _. nothing) (register_push_token i token platform) h
          (ground arith) (register_push_token-IsCareful i token platform)
  handle_user-IsHarmless post_login body i h = λ _ _. refl
  handle_user-IsHarmless post_refresh body i h = λ _ _. refl
  handle_user-IsHarmless post_logout body i h = λ _ _. refl
  handle_user-IsHarmless post_registration body i h = λ _ _. refl
  handle_user-IsHarmless (get_registration_result id secret) body i h = λ _ _. refl

  behind_guard :
      (route : Route) (a : Option String) (b : Body) (h : Hub)
      → IsHarmless (guarded web a (handle_user web route b) h) h
  behind_guard route a b h =
      guarded-IsHarmless a (handle_user web route b) h λ i. handle_user-IsHarmless route b i h

  handle-IsHarmless :
      (route : Route) (a : Option String) (b : Body) (h : Hub)
      → IsHarmless (handle web (record { route = route; authorization = a; body = b }) h) h
  unfolding handle
  handle-IsHarmless post_login a b h =
      validated-IsHarmless (login_dto web b) _ h λ (email, password).
        answered-IsHarmless 200 tokens (login email password) h (ground arith)
          (login-IsCareful email password)
  handle-IsHarmless post_refresh a b h = validated-IsHarmless (refresh_dto web b) _ h λ token.
      answered-IsHarmless 200 tokens (refresh token) h (ground arith) (refresh-IsCareful token)
  handle-IsHarmless post_logout a b h = validated-IsHarmless (refresh_dto web b) _ h λ token.
      answered-IsHarmless 204 (λ _. nothing) (logout token) h (ground arith)
        (logout-IsCareful token)
  handle-IsHarmless post_registration a b h =
      validated-IsHarmless (create_request_dto web b) _ h λ dto.
        answered-IsHarmless 201 new_registration (Registrations.create dto) h (ground arith)
          (create-IsCareful dto)
  handle-IsHarmless (get_registration_result id secret) a b h =
      answered-IsHarmless 200 registration_result (get_result id (or_empty secret)) h (ground arith)
        (get_result-IsCareful id (or_empty secret))
  handle-IsHarmless post_task a b h = behind_guard post_task a b h
  handle-IsHarmless get_tasks a b h = behind_guard get_tasks a b h
  handle-IsHarmless (get_task id) a b h = behind_guard (get_task id) a b h
  handle-IsHarmless (post_cancel id) a b h = behind_guard (post_cancel id) a b h
  handle-IsHarmless post_server a b h = behind_guard post_server a b h
  handle-IsHarmless get_servers a b h = behind_guard get_servers a b h
  handle-IsHarmless (get_server id) a b h = behind_guard (get_server id) a b h
  handle-IsHarmless (get_health id) a b h = behind_guard (get_health id) a b h
  handle-IsHarmless (delete_server id) a b h = behind_guard (delete_server id) a b h
  handle-IsHarmless get_registrations a b h = behind_guard get_registrations a b h
  handle-IsHarmless (post_registration_decision id) a b h =
      behind_guard (post_registration_decision id) a b h
  handle-IsHarmless (get_approvals status) a b h = behind_guard (get_approvals status) a b h
  handle-IsHarmless (post_approval_decision id) a b h =
      behind_guard (post_approval_decision id) a b h
  handle-IsHarmless post_push_token a b h = behind_guard post_push_token a b h

  -- A request that the hub answers with a status from 400 to 499, whatever it asks for, changes
  -- nothing in the hub.
  pub client_error_changes_nothing :
      (r : Request) (h : Hub)
      → 400 ≤ (handle web r h).0.status
      → (handle web r h).0.status < 500
      → (handle web r h).1 ≡ h
  client_error_changes_nothing r h = handle-IsHarmless r.route r.authorization r.body h
