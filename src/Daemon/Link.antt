-- ===== src/Daemon/Link.antt =====
-- The messages of the daemon (agent-daemon/src/runner.js) as the hub reads them
-- (hub-api/src/realtime/events.ts).
pub mod Results
use code_caller.Prelude.{ℕ, String, Bool, true, Option, none, some}
use code_caller.Events.{
  DaemonTaskStatus, DaemonTaskFailurePayload, DaemonTaskResultPayload, DaemonResultStatus,
  DaemonInbound,
}
use code_caller.Units.{Text}
use code_caller.Daemon.Failures.{Failure}
use code_caller.Daemon.State.{
  Message, heartbeat, task_running, task_log, approval_request, task_result, Output,
}

-- How the hub holds a text, and the field `result` of a message.
module _ (text_of : Text → String) (json_of : Output → String) where
  abbrev failure_payload : Option Failure → Option DaemonTaskFailurePayload
  failure_payload none = none
  failure_payload (some f) = some (record {
    category = f.category;
    retryable = some f.retryable;
    message = some (text_of f.message);
    detail = some (text_of f.detail);
  })

  abbrev pub result_payload :
      ℕ → DaemonResultStatus → Option Failure → Output → DaemonTaskResultPayload
  result_payload t status failure output = record {
    task_id = t;
    status = status;
    failure = failure_payload failure;
    result = some (json_of output);
  }

  unfoldable pub inbound : Message → DaemonInbound
  inbound heartbeat = DaemonInbound.heartbeat
  inbound (task_running t) =
      DaemonInbound.task_status_update (record { task_id = t; status = DaemonTaskStatus.running })
  inbound (task_log t chunk) =
      DaemonInbound.task_log (record { task_id = t; chunk = text_of chunk })
  inbound (approval_request t reason) =
      DaemonInbound.approval_request (record { task_id = t; reason = text_of reason })
  inbound (task_result t status failure output) =
      DaemonInbound.task_result (result_payload t status failure output)
