-- ===== src/Watchdog.antt =====
-- hub-api/src/tasks/tasks.processor.ts: the watchdog over tasks that run with no sign of life.
pub mod TimeOuts
pub mod Scan
use code_caller.Prelude.{
  ℕ, ◌+◌, String, ◌<>◌, Bool, not, ◌&&◌, Option, none, some, List, [], ◌∷◌, map, ◌==◌, ltb, leb,
  if◌then◌else◌,
}
use code_caller.Text.{decimal}
use code_caller.Schema.{
  Task, TaskStatus, TaskAttempt, TaskAttemptStatus, is_open, is_running, is_timed_out,
}
use code_caller.Platform.{Platform}
use code_caller.Hub.{Hub, Action, pure, gets, ◌>>=◌, ◌>>◌}
use code_caller.Prisma.{task_update, attempt_update}
use code_caller.Attempts.{watchdog_timeout_ms, watchdog_max_requeues}
use code_caller.Tasks.{requeue_task}

module _ ⦃pf : Platform⦄ where
  -- A `RUNNING` task that was not updated in time, with its latest attempt.
  pub record Stale : Type 0 where
    pub id : ℕ
    pub task : Task
    pub attempt : Option (ℕ × TaskAttempt)

  -- `updatedAt < now - timeout`
  abbrev pub is_stale : Hub → ℕ → Task → Bool
  is_stale h i t = is_running t.status && ltb (t.updated_at + watchdog_timeout_ms) h.clock

  abbrev pub with_attempt : Hub → ℕ × Task → Stale
  with_attempt h (i, t) = record {
    id = i;
    task = t;
    attempt = pf.attempts.find_first (λ a. a.started_at) (λ _ a. a.task_id == i) h.attempts;
  }

  unfoldable pub stale_tasks : Hub → List Stale
  stale_tasks h = map (with_attempt h) (pf.tasks.find_many (λ _ _. Bool.true) (is_stale h) h.tasks)

  abbrev pub timeout_reason : String
  timeout_reason = "No daemon update for " <> (decimal watchdog_timeout_ms <> "ms.")

  abbrev pub timed_out_attempt : ℕ → TaskAttempt → TaskAttempt
  timed_out_attempt now a = record a {
    status = TaskAttemptStatus.timed_out;
    failure_reason = some timeout_reason;
    finished_at = some now;
  }

  abbrev pub is_timed_out_of : ℕ → ℕ → TaskAttempt → Bool
  is_timed_out_of task_id i a = a.task_id == task_id && is_timed_out a.status

  -- the attempts of a task that have timed out
  abbrev pub timed_out_count : ℕ → Hub → ℕ
  timed_out_count task_id h = pf.attempts.count (is_timed_out_of task_id) h.attempts

  abbrev pub failed_log : Task → String
  failed_log task =
      task.logs
      <> ("\n[hub] Watchdog failed task after repeated stale RUNNING attempts: "
          <> (timeout_reason <> "\n"))

  abbrev pub requeued_log : Task → ℕ → String
  requeued_log task server_id =
      task.logs
      <> ("\n[hub] Watchdog requeued stale RUNNING task from server "
          <> (pf.id_text server_id <> (": " <> (timeout_reason <> "\n"))))

  -- the body of the loop for an attempt that has gone stale
  unfoldable pub time_out : ℕ → Task → ℕ → TaskAttempt → Action (Unit {0})
  unfolding attempt_update task_update requeue_task
  time_out task_id task attempt_id attempt = do
    count ← gets (timed_out_count task_id)
    now ← gets (λ h. h.clock)
    attempt_update attempt_id (timed_out_attempt now)
    if leb watchdog_max_requeues count
        then (do
          task_update task_id (λ t. record t { status = TaskStatus.failed; logs = failed_log task })
          pure tt)
        else (do
          task_update task_id (λ t. record t {
            status = TaskStatus.queued;
            logs = requeued_log task attempt.server_id;
          })
          requeue_task task_id)

  -- One round of the loop, and how many tasks it handled.
  unfoldable pub check_stale : Stale → Action ℕ
  unfolding time_out
  check_stale s h = elim s.attempt [
    | none ↦ pure 0 h
    | some (i, a) ↦
        if not (is_open a.status)
        then pure 0 h
        else if leb h.clock (a.last_seen_at + watchdog_timeout_ms)
        then pure 0 h
        else (do time_out s.id s.task i a; pure 1) h
  ]

  unfoldable pub scan_loop : ℕ → List Stale → Action ℕ
  unfolding check_stale
  scan_loop handled [] = pure handled
  scan_loop handled (s ∷ l) = do n ← check_stale s; scan_loop (handled + n) l

  unfoldable pub scan_stuck_tasks_once : Action ℕ
  unfolding stale_tasks scan_loop
  scan_stuck_tasks_once h = scan_loop 0 (stale_tasks h) h
