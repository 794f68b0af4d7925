-- ===== src/Mobile/Items.antt =====
-- The state of the app's screen (mobile-app/App.tsx), with the items that it shows and the requests
-- that it makes.
use code_caller.Prelude.{ℕ, String, Bool, Option, List}
use code_caller.Schema.{WorkerType}
use code_caller.Mobile.{AuthTokens}
use code_caller.Mobile.Results.{Value}

pub data Tab : Type 0 where
  servers_tab new_task_tab tasks_tab approvals_tab : Tab

-- The items, with the fields that the callbacks and the views read. A missing `result` is as `null`.
pub record ServerItem : Type 0 where
  pub id : ℕ
  pub name : String
  pub os_type : String
  pub tailscale_ip : String
  pub status : String
  pub last_heartbeat_at : Option String

pub record RegistrationItem : Type 0 where
  pub id : ℕ
  pub name : String
  pub os_type : String
  pub tailscale_ip : String
  pub fingerprint : String
  pub verification_code : String
  pub expires_at : String

pub record TaskItem : Type 0 where
  pub id : ℕ
  pub server_id : ℕ
  pub worker_type : String
  pub status : String
  pub input : Value
  pub result : Value
  pub logs : Option String
  pub created_at : String

pub record ApprovalItem : Type 0 where
  pub id : ℕ
  pub task_id : ℕ
  pub status : String
  pub reason : Option String
  pub requested_at : String
  pub task : Option TaskItem

-- The requests with a body.
pub data Call : Type 0 where
  decide_approval_call : ℕ → (approve : Bool) → (reason : String) → Call
  decide_registration_call : ℕ → (approve : Bool) → (reason : String) → Call
  create_task_call : (server_id : ℕ) → WorkerType → (prompt : String) → Call
  push_token_call : (token : String) → Call
  logout_call : (refresh_token : String) → Call

pub record Screen : Type 0 where
  pub tokens : Option AuthTokens
  pub busy : Bool
  pub error : Option String
  pub tab : Tab
  pub servers : List ServerItem
  pub registrations : List RegistrationItem
  pub tasks : List TaskItem
  pub approvals : List ApprovalItem
  pub selected_server : Option ℕ
  pub selected_task : Option ℕ
  pub worker_type : WorkerType
  pub prompt : String
  pub socket_state : String
  pub push_state : String
  pub calls : List Call

-- The four answers that `loadAll` waits for.
pub record AllData : Type 0 where
  pub servers : List ServerItem
  pub registrations : List RegistrationItem
  pub tasks : List TaskItem
  pub approvals : List ApprovalItem
