-- ===== src/Api/Elsewhere.antt =====
-- What a request leaves of the servers, tasks and approvals of others than its user (the controllers
-- of hub-api/src).
use code_caller.Prelude.{ℕ, String, ◌≡◌, refl, sym, inl, inr, arith, none, some, Option}
use mathlib.Core.Path.{subst}
use code_caller.Platform.{Platform}
use code_caller.Hub.{Hub, Action, Result-cases}
use code_caller.Auth.{login, refresh, logout}
use code_caller.Tasks.{submit, find_all_for_owner, find_one_for_owner_task, cancel}
use code_caller.Servers
use code_caller.Registrations
use code_caller.Registrations.{CreateRequest, find_pending_for_owner}
use code_caller.RegistrationDecisions
use code_caller.RegistrationResults.{get_result}
use code_caller.Approvals
use code_caller.Approvals.{list_for_owner}
use code_caller.Notifications.{register_push_token}
use code_caller.Api.Bodies.{
  Web, Body, login_dto, refresh_dto, create_task_dto, create_server_dto, create_request_dto,
  decide_dto, push_token_dto,
}
use code_caller.Api.Foreign.{IsSameElsewhere}
use code_caller.Api.Isolation.{
  submit-Keeps, cancel-Keeps, create-Keeps, decide_request-Keeps, decide-Keeps, remove-Keeps,
}
use code_caller.Api.Spared.{
  Spares, apart_same, login-Spares, refresh-Spares, logout-Spares, create-Spares, get_result-Spares,
  find_all_for_owner-Spares, find_one_for_owner_task-Spares, find_servers-Spares,
  find_one_for_owner-Spares, get_health-Spares, find_pending-Spares, register-Spares,
}
use code_caller.Api.{
  Route, Request, Answer, Payload, handle, handle_user, current_user, answered, validated, guarded,
  find_approvals, or_empty, refused, post_login, post_refresh, post_logout, post_task, get_tasks,
  get_task, post_cancel, post_server, get_servers, get_server, get_health, delete_server,
  post_registration, get_registrations, get_registration_result, post_registration_decision,
  get_approvals, post_approval_decision, post_push_token, nothing, tokens, task, task_list, server,
  server_list, new_server, health, registration, registration_list, new_registration,
  registration_result, approval, approval_list,
}

module _ ⦃pf : Platform⦄ {A : Type 0} (user : Option ℕ) (status : ℕ) (f : A → Payload)
    (m : Action A) (h : Hub) (i : ℕ) where
  answered_hub : (answered status f m h).1 ≡ (m h).1
  answered_hub = elim (Result-cases (m h).0) [
    | inl (a, is) ↦ ground (arith, is)
    | inr (e, is) ↦ ground (arith, is)
  ]

  answered_same :
      IsSameElsewhere user h (m h).1 i → IsSameElsewhere user h (answered status f m h).1 i
  answered_same same = subst (λ g. IsSameElsewhere user h g i) (sym answered_hub) same

  answered_apart : Spares m → IsSameElsewhere user h (answered status f m h).1 i
  answered_apart spares = answered_same (apart_same user h (m h).1 i (spares h))

module _ ⦃pf : Platform⦄ (user : Option ℕ) (h : Hub) (i : ℕ) where
  unchanged : IsSameElsewhere user h h i
  unchanged = (refl, refl, refl)

  validated_same :
      {A : Type 0} (body : Option A) (k : A → Hub → Answer × Hub)
      → ((a : A) → IsSameElsewhere user h (k a h).1 i)
      → IsSameElsewhere user h (validated body k h).1 i
  validated_same none k each = unchanged
  validated_same (some a) k each = each a

module _ ⦃pf : Platform⦄ (web : Web) where
  find_approvals-Spares : (i : ℕ) (status : Option String) → Spares (find_approvals web i status)
  unfolding find_approvals list_for_owner
  find_approvals-Spares i none h = (refl, refl, refl)
  find_approvals-Spares i (some status) h = (ground arith, ground arith, ground arith)

  handle_user_same :
      (route : Route) (body : Body) (u : ℕ) (h : Hub) (i : ℕ)
      → IsSameElsewhere (some u) h (handle_user web route body u h).1 i
  unfolding handle_user
  handle_user_same post_task body u h i =
      validated_same (some u) h i (create_task_dto web body) _
        λ dto. answered_same (some u) 201 task (submit u dto) h i (submit-Keeps u dto h i)
  handle_user_same get_tasks body u h i =
      answered_apart (some u) 200 task_list (find_all_for_owner u) h i (find_all_for_owner-Spares u)
  handle_user_same (get_task id) body u h i =
      answered_apart (some u) 200 task (find_one_for_owner_task u id) h i
        (find_one_for_owner_task-Spares u id)
  handle_user_same (post_cancel id) body u h i =
      answered_same (some u) 201 task (cancel u id) h i (cancel-Keeps u id h i)
  handle_user_same post_server body u h i =
      validated_same (some u) h i (create_server_dto web body) _ λ dto.
        answered_same (some u) 201 new_server (Servers.create u dto) h i (create-Keeps u dto h i)
  handle_user_same get_servers body u h i =
      answered_apart (some u) 200 server_list (Servers.find_all_for_owner u) h i
        (find_servers-Spares u)
  handle_user_same (get_server id) body u h i =
      answered_apart (some u) 200 server (Servers.find_one_for_owner u id) h i
        (find_one_for_owner-Spares u id)
  handle_user_same (get_health id) body u h i =
      answered_apart (some u) 200 health (Servers.get_health u id) h i (get_health-Spares u id)
  handle_user_same (delete_server id) body u h i =
      answered_same (some u) 200 (λ _. nothing) (Servers.remove u id) h i (remove-Keeps u id h i)
  handle_user_same get_registrations body u h i =
      answered_apart (some u) 200 registration_list (find_pending_for_owner u) h i
        (find_pending-Spares u)
  handle_user_same (post_registration_decision id) body u h i =
      validated_same (some u) h i (decide_dto web body) _ λ dto.
        answered_same (some u) 201 registration (RegistrationDecisions.decide u id dto.approve) h i
          (decide_request-Keeps u id dto.approve h i)
  handle_user_same (get_approvals status) body u h i =
      answered_apart (some u) 200 approval_list (find_approvals web u status) h i
        (find_approvals-Spares u status)
  handle_user_same (post_approval_decision id) body u h i =
      validated_same (some u) h i (decide_dto web body) _ λ dto.
        answered_same (some u) 201 approval (Approvals.decide u id dto) h i
          (decide-Keeps u id dto h i)
  handle_user_same post_push_token body u h i =
      validated_same (some u) h i (push_token_dto web body) _ λ (token, p).
        answered_apart (some u) 204 (λ _. nothing) (register_push_token u token p) h i
          (register-Spares u token p)
  handle_user_same post_login body u h i = unchanged (some u) h i
  handle_user_same post_refresh body u h i = unchanged (some u) h i
  handle_user_same post_logout body u h i = unchanged (some u) h i
  handle_user_same post_registration body u h i = unchanged (some u) h i
  handle_user_same (get_registration_result id secret) body u h i = unchanged (some u) h i

  behind_guard :
      (route : Route) (a : Option String) (body : Body) (h : Hub) (i : ℕ)
      → IsSameElsewhere (current_user web a h) h (guarded web a (handle_user web route body) h).1 i
  behind_guard route a body h i = for_user (current_user web a h)
    where
      for_user :
          (user : Option ℕ)
          → IsSameElsewhere user h
              (elim user as (λ _. Answer × Hub) [
                | none ↦ (refused 401 "Unauthorized", h)
                | some u ↦ handle_user web route body u h
              ]).1
              i
      for_user none = unchanged none h i
      for_user (some u) = handle_user_same route body u h i

  handle_same :
      (route : Route) (a : Option String) (body : Body) (h : Hub) (i : ℕ)
      → IsSameElsewhere
          (current_user web a h)
          h
          (handle web (record { route = route; authorization = a; body = body }) h).1
          i
  unfolding handle
  handle_same post_login a body h i =
      validated_same (current_user web a h) h i (login_dto web body) _ λ (email, password).
        answered_apart (current_user web a h) 200 tokens (login email password) h i
          (login-Spares email password)
  handle_same post_refresh a body h i =
      validated_same (current_user web a h) h i (refresh_dto web body) _ λ token.
        answered_apart (current_user web a h) 200 tokens (refresh token) h i (refresh-Spares token)
  handle_same post_logout a body h i =
      validated_same (current_user web a h) h i (refresh_dto web body) _ λ token.
        answered_apart (current_user web a h) 204 (λ _. nothing) (logout token) h i
          (logout-Spares token)
  handle_same post_registration a body h i =
      validated_same (current_user web a h) h i (create_request_dto web body) _ λ dto.
        answered_apart (current_user web a h) 201 new_registration (Registrations.create dto) h i
          (create-Spares dto)
  handle_same (get_registration_result id secret) a body h i =
      answered_apart (current_user web a h) 200 registration_result
        (get_result id (or_empty secret)) h i (get_result-Spares id (or_empty secret))
  handle_same post_task a body h i = behind_guard post_task a body h i
  handle_same get_tasks a body h i = behind_guard get_tasks a body h i
  handle_same (get_task id) a body h i = behind_guard (get_task id) a body h i
  handle_same (post_cancel id) a body h i = behind_guard (post_cancel id) a body h i
  handle_same post_server a body h i = behind_guard post_server a body h i
  handle_same get_servers a body h i = behind_guard get_servers a body h i
  handle_same (get_server id) a body h i = behind_guard (get_server id) a body h i
  handle_same (get_health id) a body h i = behind_guard (get_health id) a body h i
  handle_same (delete_server id) a body h i = behind_guard (delete_server id) a body h i
  handle_same get_registrations a body h i = behind_guard get_registrations a body h i
  handle_same (post_registration_decision id) a body h i =
      behind_guard (post_registration_decision id) a body h i
  handle_same (get_approvals status) a body h i = behind_guard (get_approvals status) a body h i
  handle_same (post_approval_decision id) a body h i =
      behind_guard (post_approval_decision id) a body h i
  handle_same post_push_token a body h i = behind_guard post_push_token a body h i

  -- A request, whatever it asks for, leaves what the hub shows of the servers, tasks and
  -- approvals of others at any id as it was, where others are all owners but the user of the
  -- request's token, and all owners if the token is none of a user.
  pub others_kept :
      (r : Request) (h : Hub) (i : ℕ)
      → IsSameElsewhere (current_user web r.authorization h) h (handle web r h).1 i
  others_kept r h i = handle_same r.route r.authorization r.body h i
