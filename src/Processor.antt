-- ===== src/Processor.antt =====
-- hub-api/src/tasks/tasks.processor.ts: the worker of the queue `task-dispatch`.
pub mod Dispatching
pub mod Unsupported
use code_caller.Prelude.{ℕ, Option, none, some, if◌then◌else◌}
use code_caller.Schema.{is_queued}
use code_caller.Platform.{Platform}
use code_caller.Hub.{Action, pure, ◌>>◌}
use code_caller.Dispatch.{dispatch_task}
use code_caller.Watchdog.{scan_stuck_tasks_once}

-- A job as the worker receives it: its name, and `data.taskId`.
pub data Job : Type 0 where
  watchdog : Job
  dispatch : Option ℕ → Job

module _ ⦃pf : Platform⦄ where
  unfoldable pub process : Job → Action (Unit {0})
  unfolding scan_stuck_tasks_once dispatch_task
  process watchdog h = (do scan_stuck_tasks_once; pure tt) h
  process (dispatch none) h = pure tt h
  process (dispatch (some task_id)) h = elim (pf.tasks.find_unique task_id h.tasks) [
    | none ↦ pure tt h
    | some task ↦ if is_queued task.status then dispatch_task task_id task h else pure tt h
  ]
