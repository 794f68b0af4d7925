-- ===== src/Tasks.antt =====
-- hub-api/src/tasks/tasks.service.ts. The logger is left out.
pub mod Commands
pub mod Listing
use code_caller.Prelude.{
  ℕ, String, ◌<>◌, Bool, true, false, not, ◌&&◌, Option, none, some, List, ◌==◌, leb,
}
use code_caller.Text.{take_chars}
use code_caller.Schema.{WorkerType, Task, TaskStatus, TaskAttemptStatus}
use code_caller.Events.{
  task_updated, DaemonTaskStatus, DaemonTaskStatusPayload, FailureCategory,
  DaemonTaskFailurePayload, DaemonResultStatus, DaemonTaskResultPayload,
}
use code_caller.Platform.{Platform}
use code_caller.Hub.{
  Hub, Action, ErrorKind, dispatch_job, watchdog_job, pure, or_raise, raise_if, gets, add_job,
  ◌>>=◌, ◌>>◌,
}
use code_caller.Prisma.{task_update, task_find_with_owner}
use code_caller.Realtime.{notify_user}
use code_caller.Servers.{find_one_for_owner}
use code_caller.Workers.{get, cancel_task}
use code_caller.Attempts.{
  touch_running_attempt, watchdog_interval_ms, retryable_capacity_failure_prefix,
}

pub record CreateTask : Type 0 where
  pub server_id : ℕ
  pub worker_type : WorkerType
  pub input : String

-- The statuses of the daemon's messages, as those of the database.
abbrev pub reported_status : DaemonTaskStatus → TaskStatus
reported_status DaemonTaskStatus.running = TaskStatus.running
reported_status DaemonTaskStatus.awaiting_approval = TaskStatus.awaiting_approval
reported_status DaemonTaskStatus.completed = TaskStatus.completed
reported_status DaemonTaskStatus.failed = TaskStatus.failed
reported_status DaemonTaskStatus.cancelled = TaskStatus.cancelled

abbrev pub result_status : DaemonResultStatus → TaskStatus
result_status DaemonResultStatus.completed = TaskStatus.completed
result_status DaemonResultStatus.failed = TaskStatus.failed

abbrev pub attempt_status : DaemonResultStatus → TaskAttemptStatus
attempt_status DaemonResultStatus.completed = TaskAttemptStatus.succeeded
attempt_status DaemonResultStatus.failed = TaskAttemptStatus.failed

abbrev pub attempt_reason : DaemonResultStatus → Option String
attempt_reason DaemonResultStatus.completed = none
attempt_reason DaemonResultStatus.failed = some "Daemon reported task failure."

abbrev pub result_title : DaemonResultStatus → String
result_title DaemonResultStatus.completed = "작업 완료"
result_title DaemonResultStatus.failed = "작업 실패"

abbrev pub or_default : Option String → String → String
or_default none d = d
or_default (some s) d = s

abbrev pub is_capacity : FailureCategory → Bool
is_capacity FailureCategory.capacity_exhausted = true
is_capacity _ = false

abbrev pub is_false : Option Bool → Bool
is_false (some false) = true
is_false _ = false

-- `isRetryableCapacityFailure`
abbrev pub is_retryable_failure : DaemonResultStatus → Option DaemonTaskFailurePayload → Bool
is_retryable_failure DaemonResultStatus.failed (some f) =
    is_capacity f.category && not (is_false f.retryable)
is_retryable_failure _ _ = false

abbrev pub is_retryable_capacity_failure : DaemonTaskResultPayload → Bool
is_retryable_capacity_failure p = is_retryable_failure p.status p.failure

abbrev pub message_of : Option DaemonTaskFailurePayload → Option String
message_of none = none
message_of (some f) = f.message

abbrev pub detail_of : Option DaemonTaskFailurePayload → Option String
detail_of none = none
detail_of (some f) = f.detail

-- ` detail=${…}`, left out where the detail is missing or empty
abbrev pub detail_text : Option String → String
detail_text none = ""
detail_text (some String.[]) = ""
detail_text (some s) = " detail=" <> take_chars 500 s

-- `formatStructuredFailureReason`
unfoldable pub format_failure_reason : DaemonTaskResultPayload → String
format_failure_reason p =
    retryable_capacity_failure_prefix
    <> (": "
        <> (or_default (message_of p.failure) "Retryable worker capacity failure."
            <> detail_text (detail_of p.failure)))

abbrev pub or_result : Option String → Option String → Option String
or_result none old = old
or_result (some new) old = some new

abbrev pub or_status : Option TaskStatus → TaskStatus → TaskStatus
or_status none old = old
or_status (some new) old = new

module _ ⦃pf : Platform⦄ where
  -- a dispatch job, with `attempts: 5` and an exponential backoff from 2000 ms
  unfoldable pub requeue_task : ℕ → Action (Unit {0})
  requeue_task task_id = add_job (dispatch_job task_id 5 2000)

  unfoldable pub ensure_watchdog_scheduled : Action (Unit {0})
  ensure_watchdog_scheduled = add_job (watchdog_job watchdog_interval_ms 10)

  -- The row of a new task, its status, logs and times as the schema gives them.
  abbrev pub new_task : CreateTask → ℕ → Task
  new_task dto now = record {
    server_id = dto.server_id;
    worker_type = dto.worker_type;
    status = TaskStatus.queued;
    input = dto.input;
    result = none;
    logs = "";
    created_at = now;
    updated_at = now;
  }

  unfoldable pub task_create : Task → Action ℕ
  task_create t h = pure (pf.tasks.next_id h.tasks) (record h { tasks = pf.tasks.create t h.tasks })

  unfoldable pub submit : ℕ → CreateTask → Action (ℕ × Task)
  unfolding find_one_for_owner task_create requeue_task ensure_watchdog_scheduled
  submit owner_id dto = do
    find_one_for_owner owner_id dto.server_id
    now ← gets (λ h. h.clock)
    i ← task_create (new_task dto now)
    requeue_task i
    ensure_watchdog_scheduled
    pure (i, new_task dto now)

  -- `findMany({ where: { server: { ownerId } }, orderBy: { createdAt: 'desc' } })`
  abbrev pub is_owned_by : ℕ → Hub → ℕ → Task → Bool
  is_owned_by owner_id h i t = elim (pf.servers.find_unique t.server_id h.servers) [
    | none ↦ false
    | some s ↦ s.owner_id == owner_id
  ]

  unfoldable pub find_all_for_owner : ℕ → Action (List (ℕ × Task))
  find_all_for_owner owner_id = gets λ h.
      pf.tasks.find_many (λ a b. leb b.1.created_at a.1.created_at) (is_owned_by owner_id h) h.tasks

  unfoldable pub get_owned_task : ℕ → ℕ → Action Task
  unfolding task_find_with_owner
  get_owned_task owner_id task_id = do
    found ← gets (task_find_with_owner task_id)
    (task, owner) ← or_raise found ErrorKind.not_found "작업을 찾을 수 없습니다."
    raise_if (not (owner == owner_id)) ErrorKind.forbidden "해당 작업에 접근할 권한이 없습니다."
    pure task

  unfoldable pub find_one_for_owner_task : ℕ → ℕ → Action (ℕ × Task)
  unfolding get_owned_task
  find_one_for_owner_task owner_id task_id = do
    task ← get_owned_task owner_id task_id
    pure (task_id, task)

  -- the owner of the updated task, whose server the foreign key keeps there
  abbrev pub owner_of : Task → Hub → Option ℕ
  owner_of t h = elim (pf.servers.find_unique t.server_id h.servers) [
    | none ↦ none
    | some s ↦ some s.owner_id
  ]

  -- `updateTaskAndNotify`: of the columns only those that are given change
  unfoldable pub update_task_and_notify :
      ℕ → Option TaskStatus → Option String → Option String → Action (Task × ℕ)
  unfolding task_update
  update_task_and_notify task_id status result logs = do
    task ← task_update task_id (λ t. record t {
      status = or_status status t.status;
      result = or_result result t.result;
      logs = or_default logs t.logs;
    })
    found ← gets (owner_of task)
    owner ← or_raise found ErrorKind.database pf.prisma_message
    notify_user owner (task_updated task_id task)
    pure (task, owner)

  -- `updateStatus`
  unfoldable pub update_status : ℕ → TaskStatus → Option String → Action (Task × ℕ)
  unfolding update_task_and_notify
  update_status task_id status result = update_task_and_notify task_id (some status) result none

  unfoldable pub cancel : ℕ → ℕ → Action (ℕ × Task)
  unfolding get_owned_task get cancel_task update_status
  cancel owner_id task_id = do
    task ← get_owned_task owner_id task_id
    adapter ← get task.worker_type
    cancel_task adapter task_id
    (updated, _) ← update_status task_id TaskStatus.cancelled none
    pure (task_id, updated)

  unfoldable pub handle_daemon_task_status : DaemonTaskStatusPayload → Action (Unit {0})
  unfolding touch_running_attempt update_status
  handle_daemon_task_status p = do
    touch_running_attempt p.task_id
    update_status p.task_id (reported_status p.status) none
    pure tt
