-- ===== src/Schema.antt =====
-- The rows of the database (hub-api/prisma/schema.prisma). An id is a UUID and only compared, so
-- it is a number here; a row does not hold its own id, under which its table keeps it. A
-- `DateTime` is its number of milliseconds, a `Json` value its text.
use code_caller.Prelude.{ℕ, String, Bool, true, false, Option, ◌==◌}

pub data OsType : Type 0 where
  ubuntu windows macos : OsType

pub data ServerStatus : Type 0 where
  online offline : ServerStatus

pub data WorkerType : Type 0 where
  codex claude gemini : WorkerType

pub data TaskStatus : Type 0 where
  queued running awaiting_approval completed failed cancelled : TaskStatus

pub data TaskAttemptStatus : Type 0 where
  dispatching running succeeded failed timed_out : TaskAttemptStatus

pub data ApprovalStatus : Type 0 where
  pending approved rejected : ApprovalStatus

pub data PushPlatform : Type 0 where
  android ios : PushPlatform

pub data ServerRegistrationStatus : Type 0 where
  pending approved rejected expired credential_delivered : ServerRegistrationStatus

pub data WorkerProvider : Type 0 where
  codex claude_code antigravity opencode gemini : WorkerProvider

pub record User : Type 0 where
  pub email : String
  pub password_hash : String

pub record RefreshToken : Type 0 where
  pub user_id : ℕ
  pub token_hash : String
  pub revoked : Bool
  pub expires_at : ℕ

pub record Server : Type 0 where
  pub owner_id : ℕ
  pub name : String
  pub os_type : OsType
  pub tailscale_ip : String
  pub api_key_hash : String
  pub status : ServerStatus
  pub last_heartbeat_at : Option ℕ
  pub created_at : ℕ

pub record ServerRegistrationRequest : Type 0 where
  pub owner_id : ℕ
  pub name : String
  pub os_type : OsType
  pub tailscale_ip : String
  pub fingerprint : String
  pub verification_code : String
  pub request_secret_hash : String
  pub status : ServerRegistrationStatus
  pub expires_at : ℕ
  pub server_id : Option ℕ
  pub api_key_ciphertext : Option String
  pub api_key_iv : Option String
  pub api_key_auth_tag : Option String
  pub created_at : ℕ

pub record WorkerProfile : Type 0 where
  pub server_id : ℕ
  pub provider : WorkerProvider
  pub profile_name : String
  pub enabled : Bool
  pub capabilities : String

pub record Task : Type 0 where
  pub server_id : ℕ
  pub worker_type : WorkerType
  pub status : TaskStatus
  pub input : String
  pub result : Option String
  pub logs : String
  pub created_at : ℕ
  pub updated_at : ℕ

pub record TaskAttempt : Type 0 where
  pub task_id : ℕ
  pub server_id : ℕ
  pub status : TaskAttemptStatus
  pub failure_reason : Option String
  pub started_at : ℕ
  pub last_seen_at : ℕ
  pub finished_at : Option ℕ

pub record Approval : Type 0 where
  pub task_id : ℕ
  pub status : ApprovalStatus
  pub requested_at : ℕ
  pub decided_at : Option ℕ
  pub reason : Option String

pub record PushToken : Type 0 where
  pub user_id : ℕ
  pub token : String
  pub platform : PushPlatform

-- The tests that the queries make on the enumerations.
abbrev pub provider_code : WorkerProvider → ℕ
provider_code WorkerProvider.codex = 0
provider_code WorkerProvider.claude_code = 1
provider_code WorkerProvider.antigravity = 2
provider_code WorkerProvider.opencode = 3
provider_code WorkerProvider.gemini = 4

abbrev pub same_provider : WorkerProvider → WorkerProvider → Bool
same_provider a b = provider_code a == provider_code b

abbrev pub is_online : ServerStatus → Bool
is_online online = true
is_online offline = false

abbrev pub is_queued : TaskStatus → Bool
is_queued TaskStatus.queued = true
is_queued _ = false

abbrev pub is_running : TaskStatus → Bool
is_running TaskStatus.running = true
is_running _ = false

abbrev pub is_open : TaskAttemptStatus → Bool
is_open TaskAttemptStatus.dispatching = true
is_open TaskAttemptStatus.running = true
is_open _ = false

abbrev pub is_failed_attempt : TaskAttemptStatus → Bool
is_failed_attempt TaskAttemptStatus.failed = true
is_failed_attempt _ = false

abbrev pub is_timed_out : TaskAttemptStatus → Bool
is_timed_out TaskAttemptStatus.timed_out = true
is_timed_out _ = false

abbrev pub is_pending_approval : ApprovalStatus → Bool
is_pending_approval ApprovalStatus.pending = true
is_pending_approval _ = false

abbrev pub is_pending_registration : ServerRegistrationStatus → Bool
is_pending_registration ServerRegistrationStatus.pending = true
is_pending_registration _ = false

abbrev pub is_approved_registration : ServerRegistrationStatus → Bool
is_approved_registration ServerRegistrationStatus.approved = true
is_approved_registration _ = false
