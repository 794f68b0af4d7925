-- ===== src/Events.antt =====
-- The messages between the hub, the daemons and the app (hub-api/src/realtime/events.ts).
use code_caller.Prelude.{ℕ, String, Bool, Option}
use code_caller.Schema.{Task, Approval}

-- `DAEMON_OUTBOUND`, each with the payload that the services send.
pub data DaemonOutbound : Type 0 where
  task_submit : ℕ → String → DaemonOutbound
  task_cancel : ℕ → DaemonOutbound
  approval_decision : ℕ → Bool → Option String → DaemonOutbound

-- `APP_OUTBOUND`, each with the id and the row that the services send.
pub data AppOutbound : Type 0 where
  task_updated : ℕ → Task → AppOutbound
  approval_pending : ℕ → Approval → AppOutbound
  approval_resolved : ℕ → Approval → AppOutbound

-- The statuses that a daemon may report.
pub data DaemonTaskStatus : Type 0 where
  running awaiting_approval completed failed cancelled : DaemonTaskStatus

pub record DaemonTaskStatusPayload : Type 0 where
  pub task_id : ℕ
  pub status : DaemonTaskStatus

pub record DaemonTaskLogPayload : Type 0 where
  pub task_id : ℕ
  pub chunk : String

pub data FailureCategory : Type 0 where
  capacity_exhausted process_error unknown : FailureCategory

pub record DaemonTaskFailurePayload : Type 0 where
  pub category : FailureCategory
  pub retryable : Option Bool
  pub message : Option String
  pub detail : Option String

pub data DaemonResultStatus : Type 0 where
  completed failed : DaemonResultStatus

pub record DaemonTaskResultPayload : Type 0 where
  pub task_id : ℕ
  pub status : DaemonResultStatus
  pub failure : Option DaemonTaskFailurePayload
  pub result : Option String

pub record DaemonApprovalRequestPayload : Type 0 where
  pub task_id : ℕ
  pub reason : String

-- `DAEMON_INBOUND`: what a daemon may send.
pub data DaemonInbound : Type 0 where
  heartbeat : DaemonInbound
  task_status_update : DaemonTaskStatusPayload → DaemonInbound
  task_log : DaemonTaskLogPayload → DaemonInbound
  task_result : DaemonTaskResultPayload → DaemonInbound
  approval_request : DaemonApprovalRequestPayload → DaemonInbound
