-- ===== src/Tests/World.antt =====
-- A small hub in memory for the examples: two users, of whom the first has three servers.
use code_caller.Prelude.{ℕ, ◌==◌, if◌then◌else◌, true, false, none, some, [], ◌∷◌, String}
use code_caller.Schema.{
  RefreshToken, Server, ServerStatus, OsType, WorkerType, WorkerProvider, WorkerProfile, Task,
  TaskStatus, TaskAttempt, TaskAttemptStatus, Approval, ApprovalStatus, ServerRegistrationRequest,
  ServerRegistrationStatus,
}
use code_caller.Platform.Memory.{memory}
use code_caller.Hub.{Hub}

abbrev pub server : ℕ → String → String → ServerStatus → Server
server owner_id name key status = record {
  owner_id = owner_id;
  name = name;
  os_type = OsType.ubuntu;
  tailscale_ip = "100.64.0.1";
  api_key_hash = key;
  status = status;
  last_heartbeat_at = none;
  created_at = 0;
}

abbrev pub profile : ℕ → WorkerProfile
profile server_id = record {
  server_id = server_id;
  provider = WorkerProvider.codex;
  profile_name = "default";
  enabled = true;
  capabilities = "{}";
}

abbrev pub task : ℕ → WorkerType → TaskStatus → Task
task server_id worker_type status = record {
  server_id = server_id;
  worker_type = worker_type;
  status = status;
  input = "fix the build";
  result = none;
  logs = "";
  created_at = 0;
  updated_at = 0;
}

-- the attempt of task 1 at server 0, which has been silent for long
abbrev pub silent : TaskAttempt
silent = record {
  task_id = 1;
  server_id = 0;
  status = TaskAttemptStatus.running;
  failure_reason = none;
  started_at = 0;
  last_seen_at = 0;
  finished_at = none;
}

abbrev pub waiting : Approval
waiting = record {
  task_id = 2;
  status = ApprovalStatus.pending;
  requested_at = 10;
  decided_at = none;
  reason = some "rm -rf build";
}

abbrev pub registration : ServerRegistrationStatus → ℕ → ServerRegistrationRequest
registration status expires_at = record {
  owner_id = 0;
  name = "delta";
  os_type = OsType.macos;
  tailscale_ip = "100.64.0.9";
  fingerprint = "ab:cd";
  verification_code = "ABC123";
  request_secret_hash = "#s3cret";
  status = status;
  expires_at = expires_at;
  server_id = none;
  api_key_ciphertext = none;
  api_key_iv = none;
  api_key_auth_tag = none;
  created_at = 0;
}

abbrev pub granted : ServerRegistrationRequest
granted = record (registration ServerRegistrationStatus.approved 6000000) {
  server_id = some 3;
  api_key_ciphertext = some "key-d";
  api_key_iv = some "iv";
  api_key_auth_tag = some "tag";
}

abbrev pub live : RefreshToken
live = record { user_id = 0; token_hash = "#token"; revoked = false; expires_at = 9000000 }

-- Server 1 is connected by socket 10 and server 3 by the sockets 12 and 13; server 0 is marked as
-- online without a socket.
abbrev pub world : Hub
world = record {
  clock = 5000000;
  draws = 0;
  users =
      some (record { email = "admin@example.com"; password_hash = "pw" })
      ∷ some (record { email = "guest@example.com"; password_hash = "pw2" })
      ∷ [];
  refresh_tokens = some live ∷ [];
  servers =
      some (server 0 "alpha" "#key-a" ServerStatus.online)
      ∷ some (server 0 "beta" "#key-b" ServerStatus.online)
      ∷ some (server 1 "gamma" "#key-c" ServerStatus.online)
      ∷ some (server 0 "delta" "#key-d" ServerStatus.offline)
      ∷ [];
  registrations =
      some (registration ServerRegistrationStatus.pending 6000000)
      ∷ some granted
      ∷ some (registration ServerRegistrationStatus.pending 4000000)
      ∷ some (registration ServerRegistrationStatus.rejected 6000000)
      ∷ [];
  profiles = some (profile 0) ∷ some (profile 1) ∷ some (profile 2) ∷ some (profile 3) ∷ [];
  tasks =
      some (task 0 WorkerType.codex TaskStatus.queued)
      ∷ some (task 0 WorkerType.codex TaskStatus.running)
      ∷ some (task 1 WorkerType.codex TaskStatus.awaiting_approval)
      ∷ some (task 0 WorkerType.claude TaskStatus.queued)
      ∷ some (task 2 WorkerType.codex TaskStatus.queued)
      ∷ [];
  attempts = some silent ∷ [];
  approvals = some waiting ∷ [];
  push_tokens = [];
  rooms = (10, 1) ∷ (12, 3) ∷ (13, 3) ∷ [];
  socket_data =
      λ s. if s == 10 then some 1 else if s == 12 then some 3 else if s == 13 then some 3 else none;
  push_app = false;
  added = [];
  sent = [];
}
