-- ===== src/Api/Refusals.antt =====
-- The errors of the services, as the controllers of hub-api/src answer them.
use code_caller.Prelude.{ℕ, String, ◌≡◌, refl, Bool, true, false, arith}
use code_caller.Platform.{Platform}
use code_caller.Hub.{Hub, Result, ok, err, ErrorKind, Action}
use code_caller.Auth.{issue_token_pair, verify_refresh_token, stored_token, login, refresh, logout}
use code_caller.Schema.{PushPlatform}
use code_caller.Servers
use code_caller.Servers.{CreateServer}
use code_caller.Registrations
use code_caller.Registrations.{CreateRequest, find_pending_for_owner}
use code_caller.RegistrationDecisions
use code_caller.RegistrationResults.{get_result}
use code_caller.Approvals
use code_caller.Approvals.{DecideApproval}
use code_caller.Notifications.{register_push_token}
use code_caller.Tasks.{CreateTask, submit, find_all_for_owner, find_one_for_owner_task, cancel}

-- The errors that are answered with a status of 4xx.
abbrev pub is_client : ErrorKind → Bool
is_client ErrorKind.bad_request = true
is_client ErrorKind.unauthorized = true
is_client ErrorKind.forbidden = true
is_client ErrorKind.not_found = true
is_client ErrorKind.service_unavailable = false
is_client ErrorKind.plain = false
is_client ErrorKind.database = false

abbrev pub is_refusal : {A : Type 0} → Result A → Bool
is_refusal (ok a) = false
is_refusal (err e) = is_client e.kind

module _ ⦃pf : Platform⦄ where
  -- An action that leaves the hub as it is when it ends with such an error.
  abbrev pub IsCareful : {A : Type 0} → Action A → Type 0
  IsCareful m = (h : Hub) → is_refusal (m h).0 ≡ true → (m h).1 ≡ h

  issue_token_pair_accepts :
      (i : ℕ) (email : String) (h : Hub) → is_refusal (issue_token_pair i email h).0 ≡ false
  unfolding issue_token_pair
  issue_token_pair_accepts i email h = ground arith

  pub login-IsCareful : (email password : String) → IsCareful (login email password)
  unfolding login
  login-IsCareful email password h is = grind (arith, issue_token_pair_accepts)

  pub refresh-IsCareful : (token : String) → IsCareful (refresh token)
  unfolding refresh verify_refresh_token stored_token
  refresh-IsCareful token h is = grind (arith, issue_token_pair_accepts)

  pub logout-IsCareful : (token : String) → IsCareful (logout token)
  unfolding logout
  logout-IsCareful token h is = ground arith

  pub submit-IsCareful : (i : ℕ) (dto : CreateTask) → IsCareful (submit i dto)
  unfolding submit
  submit-IsCareful i dto h is = ground arith

  pub find_all_for_owner-IsCareful : (i : ℕ) → IsCareful (find_all_for_owner i)
  unfolding find_all_for_owner
  find_all_for_owner-IsCareful i h is = refl

  pub find_one_for_owner_task-IsCareful : (i j : ℕ) → IsCareful (find_one_for_owner_task i j)
  unfolding find_one_for_owner_task
  find_one_for_owner_task-IsCareful i j h is = ground arith

  pub cancel-IsCareful : (i j : ℕ) → IsCareful (cancel i j)
  unfolding cancel
  cancel-IsCareful i j h is = ground arith

  pub create-IsCareful : (dto : CreateRequest) → IsCareful (Registrations.create dto)
  unfolding Registrations.create
  create-IsCareful dto h is = ground arith

  pub find_pending_for_owner-IsCareful : (i : ℕ) → IsCareful (find_pending_for_owner i)
  unfolding find_pending_for_owner
  find_pending_for_owner-IsCareful i h is = ground arith

  pub decide-IsCareful :
      (i j : ℕ) (approve : Bool) → IsCareful (RegistrationDecisions.decide i j approve)
  unfolding RegistrationDecisions.decide
  decide-IsCareful i j approve h is = ground arith

  pub get_result-IsCareful : (i : ℕ) (secret : String) → IsCareful (get_result i secret)
  unfolding get_result
  get_result-IsCareful i secret h is = ground arith

  pub remove-IsCareful : (i j : ℕ) → IsCareful (Servers.remove i j)
  unfolding Servers.remove
  remove-IsCareful i j h is = ground arith

  pub find_one_for_owner-IsCareful : (i j : ℕ) → IsCareful (Servers.find_one_for_owner i j)
  unfolding Servers.find_one_for_owner
  find_one_for_owner-IsCareful i j h is = ground arith

  pub get_health-IsCareful : (i j : ℕ) → IsCareful (Servers.get_health i j)
  unfolding Servers.get_health
  get_health-IsCareful i j h is = ground arith

  pub decide_approval-IsCareful :
      (i j : ℕ) (dto : DecideApproval) → IsCareful (Approvals.decide i j dto)
  unfolding Approvals.decide
  decide_approval-IsCareful i j dto h is = ground arith

  pub register_push_token-IsCareful :
      (i : ℕ) (token : String) (p : PushPlatform) → IsCareful (register_push_token i token p)
  unfolding register_push_token
  register_push_token-IsCareful i token p h is = ground arith

  pub create_server-IsCareful : (i : ℕ) (dto : CreateServer) → IsCareful (Servers.create i dto)
  unfolding Servers.create
  create_server-IsCareful i dto h is = ground arith

  pub find_servers-IsCareful : (i : ℕ) → IsCareful (Servers.find_all_for_owner i)
  unfolding Servers.find_all_for_owner
  find_servers-IsCareful i h is = refl
