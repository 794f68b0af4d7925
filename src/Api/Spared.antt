-- ===== src/Api/Spared.antt =====
-- The actions behind the requests that touch nothing of the servers, tasks and approvals.
use code_caller.Prelude.{ℕ, String, ◌≡◌, arith, Option}
use code_caller.Schema.{PushPlatform}
use code_caller.Platform.{Platform}
use code_caller.Prisma.{task_find_with_owner}
use code_caller.Hub.{Hub, Action}
use code_caller.Auth.{issue_token_pair, login, refresh, logout, verify_refresh_token, stored_token}
use code_caller.Tasks.{find_all_for_owner, find_one_for_owner_task}
use code_caller.Servers
use code_caller.Registrations
use code_caller.Registrations.{CreateRequest, find_pending_for_owner}
use code_caller.RegistrationResults.{get_result}
use code_caller.Notifications.{register_push_token}
use code_caller.Api.Foreign.{foreign_task, foreign_approval, IsSameElsewhere}

module _ ⦃pf : Platform⦄ where
  -- The three tables are as they were.
  abbrev pub IsApart : Hub → Hub → Type 0
  IsApart h h' = (h'.servers ≡ h.servers) × (h'.tasks ≡ h.tasks) × (h'.approvals ≡ h.approvals)

  abbrev pub Spares : {A : Type 0} → Action A → Type 0
  Spares m = (h : Hub) → IsApart h (m h).1

  pub apart_same :
      (user : Option ℕ) (h h' : Hub) (i : ℕ) → IsApart h h' → IsSameElsewhere user h h' i
  unfolding foreign_task foreign_approval task_find_with_owner
  apart_same user h h' i (servers, tasks, approvals) = (
    ground (arith, servers),
    ground (arith, servers, tasks),
    ground (arith, servers, tasks, approvals),
  )

  issue-Spares : (i : ℕ) (email : String) → Spares (issue_token_pair i email)
  unfolding issue_token_pair
  issue-Spares i email h = (ground arith, ground arith, ground arith)

  pub login-Spares : (email password : String) → Spares (login email password)
  unfolding login
  login-Spares email password h =
      (grind (arith, issue-Spares), grind (arith, issue-Spares), grind (arith, issue-Spares))

  pub refresh-Spares : (token : String) → Spares (refresh token)
  unfolding refresh verify_refresh_token stored_token
  refresh-Spares token h =
      (grind (arith, issue-Spares), grind (arith, issue-Spares), grind (arith, issue-Spares))

  pub logout-Spares : (token : String) → Spares (logout token)
  unfolding logout
  logout-Spares token h = (ground arith, ground arith, ground arith)

  pub create-Spares : (dto : CreateRequest) → Spares (Registrations.create dto)
  unfolding Registrations.create
  create-Spares dto h = (ground arith, ground arith, ground arith)

  pub get_result-Spares : (i : ℕ) (secret : String) → Spares (get_result i secret)
  unfolding get_result
  get_result-Spares i secret h = (ground arith, ground arith, ground arith)

  pub find_all_for_owner-Spares : (i : ℕ) → Spares (find_all_for_owner i)
  unfolding find_all_for_owner
  find_all_for_owner-Spares i h = (ground arith, ground arith, ground arith)

  pub find_one_for_owner_task-Spares : (i j : ℕ) → Spares (find_one_for_owner_task i j)
  unfolding find_one_for_owner_task
  find_one_for_owner_task-Spares i j h = (ground arith, ground arith, ground arith)

  pub find_servers-Spares : (i : ℕ) → Spares (Servers.find_all_for_owner i)
  unfolding Servers.find_all_for_owner
  find_servers-Spares i h = (ground arith, ground arith, ground arith)

  pub find_one_for_owner-Spares : (i j : ℕ) → Spares (Servers.find_one_for_owner i j)
  unfolding Servers.find_one_for_owner
  find_one_for_owner-Spares i j h = (ground arith, ground arith, ground arith)

  pub get_health-Spares : (i j : ℕ) → Spares (Servers.get_health i j)
  unfolding Servers.get_health
  get_health-Spares i j h = (ground arith, ground arith, ground arith)

  pub find_pending-Spares : (i : ℕ) → Spares (find_pending_for_owner i)
  unfolding find_pending_for_owner
  find_pending-Spares i h = (ground arith, ground arith, ground arith)

  pub register-Spares :
      (i : ℕ) (token : String) (p : PushPlatform) → Spares (register_push_token i token p)
  unfolding register_push_token
  register-Spares i token p h = (ground arith, ground arith, ground arith)
