-- ===== src/TaskResults.antt =====
-- hub-api/src/tasks/tasks.service.ts: logs and results that a daemon reports, and the failover
-- after a capacity failure.
pub mod Failover
pub mod Reports
use code_caller.Prelude.{ℕ, String, ◌<>◌, none, some, List, [], ◌∷◌, if◌then◌else◌}
use code_caller.Schema.{Task, TaskStatus, TaskAttemptStatus}
use code_caller.Events.{task_updated, DaemonTaskLogPayload, DaemonTaskResultPayload}
use code_caller.Platform.{Platform}
use code_caller.Hub.{Action, pure, ◌>>=◌, ◌>>◌}
use code_caller.Prisma.{task_update, task_find_with_owner}
use code_caller.Realtime.{notify_user}
use code_caller.Notifications.{send_push}
use code_caller.Workers.{WorkerDispatchCandidate, get_dispatch_candidates}
use code_caller.Attempts.{retry_excluded_server_ids, touch_running_attempt, finish_running_attempt}
use code_caller.Tasks.{
  requeue_task, update_status, update_task_and_notify, result_status, attempt_status,
  attempt_reason, result_title, is_retryable_capacity_failure, or_default, message_of,
  format_failure_reason,
}

module _ ⦃pf : Platform⦄ where
  unfoldable pub handle_daemon_task_log : DaemonTaskLogPayload → Action (Unit {0})
  unfolding task_find_with_owner touch_running_attempt task_update
  handle_daemon_task_log p h = elim (task_find_with_owner p.task_id h) [
    | none ↦ pure tt h
    | some (task, owner) ↦
        (do
          touch_running_attempt p.task_id
          updated ← task_update p.task_id (λ t. record t { logs = task.logs <> p.chunk })
          notify_user owner (task_updated p.task_id updated))
          h
  ]

  -- `logLine`
  abbrev pub log_line : Task → DaemonTaskResultPayload → String
  log_line task p =
      "\n[hub] Retryable capacity failure from server "
      <> (pf.id_text task.server_id
          <> (": " <> (or_default (message_of p.failure) "capacity exhausted" <> "\n")))

  abbrev pub exhausted_line : String
  exhausted_line =
      "[hub] Capacity failover exhausted: no remaining online compatible worker candidates.\n"

  abbrev pub next_line : WorkerDispatchCandidate → String
  next_line c =
      "[hub] Requeued after capacity failure; next candidate: "
      <> (c.server_name <> ("/" <> (c.profile_name <> ".\n")))

  -- The two ends of `handleRetryableCapacityFailure`, by the candidates that are left.
  unfoldable pub fail_over :
      ℕ → Task → DaemonTaskResultPayload → List WorkerDispatchCandidate → Action (Unit {0})
  unfolding update_task_and_notify requeue_task
  fail_over task_id task p [] = do
    (failed, owner) ←
        update_task_and_notify task_id (some TaskStatus.failed) p.result
          (some (task.logs <> (log_line task p <> exhausted_line)))
    send_push owner "작업 실패" ("작업(" <> (pf.id_text task_id <> ")이 작업자 용량 소진 후 실패했습니다."))
  fail_over task_id task p (c ∷ _) = do
    update_task_and_notify task_id (some TaskStatus.queued) none
        (some (task.logs <> (log_line task p <> next_line c)))
    requeue_task task_id

  unfoldable pub handle_retryable_capacity_failure : DaemonTaskResultPayload → Action (Unit {0})
  unfolding task_find_with_owner finish_running_attempt get_dispatch_candidates fail_over
  handle_retryable_capacity_failure p h = elim (task_find_with_owner p.task_id h) [
    | none ↦ pure tt h
    | some (task, _) ↦
        (do
          finish_running_attempt p.task_id TaskAttemptStatus.failed (some (format_failure_reason p))
          excluded ← retry_excluded_server_ids p.task_id
          candidates ← get_dispatch_candidates task.worker_type task.server_id excluded
          fail_over p.task_id task p candidates)
          h
  ]

  -- The rest of `handleDaemonTaskResult`.
  unfoldable pub finish_task : DaemonTaskResultPayload → Action (Unit {0})
  unfolding finish_running_attempt update_status
  finish_task p = do
    finish_running_attempt p.task_id (attempt_status p.status) (attempt_reason p.status)
    (_, owner) ← update_status p.task_id (result_status p.status) p.result
    send_push owner (result_title p.status)
        ("작업(" <> (pf.id_text p.task_id <> (")이 " <> (result_title p.status <> "되었습니다."))))

  unfoldable pub handle_daemon_task_result : DaemonTaskResultPayload → Action (Unit {0})
  unfolding handle_retryable_capacity_failure finish_task
  handle_daemon_task_result p =
      if is_retryable_capacity_failure p then handle_retryable_capacity_failure p else finish_task p
