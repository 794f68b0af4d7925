-- ===== src/Dispatch.antt =====
-- hub-api/src/tasks/tasks.processor.ts: the dispatch of a queued task to its candidates.
pub mod FirstOnline
use code_caller.Prelude.{ℕ, String, ◌<>◌, none, some, List, [], ◌∷◌, ◌++◌, map}
use code_caller.Text.{join}
use code_caller.Schema.{Task, TaskStatus, TaskAttempt, TaskAttemptStatus}
use code_caller.Platform.{Platform}
use code_caller.Hub.{Action, ErrorKind, ok, err, pure, raise, or_raise, gets, ◌>>=◌, ◌>>◌}
use code_caller.Prisma.{task_update, attempt_update, attempt_create}
use code_caller.Workers.{
  WorkerDispatchCandidate, get, submit_task, get_dispatch_candidates, worker_type_name,
}
use code_caller.Attempts.{retry_excluded_server_ids}

module _ ⦃pf : Platform⦄ where
  -- `dispatchToCandidate`
  unfoldable pub dispatch_to_candidate : ℕ → String → WorkerDispatchCandidate → Action (Unit {0})
  unfolding get submit_task
  dispatch_to_candidate task_id input c = do
    found ← gets (λ h. pf.tasks.find_unique task_id h.tasks)
    task ← or_raise found ErrorKind.database pf.prisma_message
    adapter ← get task.worker_type
    submit_task adapter task_id c.server_id input
    pure tt

  abbrev pub new_attempt : ℕ → ℕ → ℕ → TaskAttempt
  new_attempt task_id server_id now = record {
    task_id = task_id;
    server_id = server_id;
    status = TaskAttemptStatus.dispatching;
    failure_reason = none;
    started_at = now;
    last_seen_at = now;
    finished_at = none;
  }

  -- the `try` of the loop of `process`
  unfoldable pub try_candidate : ℕ → Task → ℕ → WorkerDispatchCandidate → Action (Unit {0})
  unfolding dispatch_to_candidate task_update attempt_update
  try_candidate task_id task attempt c = do
    dispatch_to_candidate task_id task.input c
    task_update task_id (λ t. record t { server_id = c.server_id; status = TaskStatus.running })
    now ← gets (λ h. h.clock)
    attempt_update attempt
        (λ a. record a { status = TaskAttemptStatus.running; last_seen_at = now })
    pure tt

  -- the update in its `catch`
  abbrev pub failed_attempt : String → ℕ → TaskAttempt → TaskAttempt
  failed_attempt message now a = record a {
    status = TaskAttemptStatus.failed;
    failure_reason = some message;
    finished_at = some now;
    last_seen_at = now;
  }

  abbrev pub failure_line : WorkerDispatchCandidate → String → String
  failure_line c message = c.server_name <> ("/" <> (c.profile_name <> (": " <> message)))

  -- `formatFailoverLog`
  unfoldable pub format_failover_log : List String → String
  format_failover_log failures =
      "\n[hub] Dispatch failover exhausted:\n"
      <> (join "\n" (map (λ failure. "- " <> failure) failures) <> "\n")

  abbrev pub exhausted_message : ℕ → List String → String
  exhausted_message task_id failures =
      "Task "
      <> (pf.id_text task_id <> (" dispatch failed on all candidates: " <> join " | " failures))

  -- what follows the loop, when no candidate took the task
  unfoldable pub give_up : ℕ → Task → List String → Action (Unit {0})
  unfolding task_update
  give_up task_id task failures = do
    task_update task_id (λ t. record t { logs = task.logs <> format_failover_log failures })
    raise ErrorKind.plain (exhausted_message task_id failures)

  -- the loop over the candidates
  unfoldable pub try_candidates :
      ℕ → Task → List String → List WorkerDispatchCandidate → Action (Unit {0})
  unfolding attempt_create try_candidate attempt_update give_up
  try_candidates task_id task failures [] h = give_up task_id task failures h
  try_candidates task_id task failures (c ∷ cs) h =
      let attempt = pf.attempts.next_id h.attempts in
      let h₁ = (attempt_create (new_attempt task_id c.server_id h.clock) h).1 in
      let (r, h₂) = try_candidate task_id task attempt c h₁ in
      elim r [
        | ok _ ↦ (ok tt, h₂)
        | err e ↦
            (attempt_update attempt (failed_attempt e.message h₂.clock)
                >> try_candidates task_id task (failures ++ failure_line c e.message ∷ []) cs)
              h₂
      ]

  abbrev pub no_candidates_message : ℕ → Task → String
  no_candidates_message task_id task =
      "No online "
      <> (worker_type_name task.worker_type
          <> (" worker candidates for task " <> (pf.id_text task_id <> ".")))

  abbrev pub start_candidates : ℕ → Task → List WorkerDispatchCandidate → Action (Unit {0})
  start_candidates task_id task [] = raise ErrorKind.plain (no_candidates_message task_id task)
  start_candidates task_id task (c ∷ cs) = try_candidates task_id task [] (c ∷ cs)

  unfoldable pub dispatch_task : ℕ → Task → Action (Unit {0})
  unfolding get_dispatch_candidates try_candidates
  dispatch_task task_id task = do
    excluded ← retry_excluded_server_ids task_id
    candidates ← get_dispatch_candidates task.worker_type task.server_id excluded
    start_candidates task_id task candidates
