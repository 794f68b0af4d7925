-- ===== src/TaskResults/Failover.antt =====
-- The failover after a capacity failure (hub-api/src/tasks/tasks.service.ts,
-- `handleRetryableCapacityFailure`).
use mathlib.Core.Path.{subst}
use text.Mathlib.TextPositions.{starts_with-append}
use code_caller.Prelude.{
  ℕ, ◌<>◌, ◌≡◌, refl, true, some, List, [], ◌∷◌, arith, contains, starts_with, ◌∙◌, sym, ◌≢◌, In,
  String,
}
use code_caller.Database.{Sets}
use code_caller.Schema.{
  Task, TaskStatus, TaskAttempt, TaskAttemptStatus, WorkerType, WorkerProvider,
}
use code_caller.Events.{DaemonTaskResultPayload, task_updated}
use code_caller.Platform.{Platform}
use code_caller.Hub.{Hub, Action, Added, dispatch_job, ok, to_user, ◌>>=◌}
use code_caller.Prisma.{task_find_with_owner, stamped}
use code_caller.Notifications.{send_push}
use code_caller.Notifications.Frame.{send_push_frame}
use code_caller.Workers.{WorkerDispatchCandidate, candidates_in}
use code_caller.Workers.Candidates.{candidates_in-IsCandidate}
use code_caller.Attempts.{
  latest_open, is_open_of, closed, excluded_in, retryable_capacity_failure_prefix,
}
use code_caller.Attempts.Exclusion.{excluded_in_iff}
use code_caller.Tasks.{format_failure_reason, update_task_and_notify, or_result}
use code_caller.TaskResults.{
  handle_retryable_capacity_failure, fail_over, log_line, next_line, exhausted_line,
}

format_failure_reason-starts_with :
    (p : DaemonTaskResultPayload)
    → starts_with (format_failure_reason p) retryable_capacity_failure_prefix ≡ true
unfolding format_failure_reason
format_failure_reason-starts_with p = starts_with-append retryable_capacity_failure_prefix _

module _ ⦃pf : Platform⦄ where
  push_after :
      (m : Action (Task × ℕ)) (title body : String) (h : Hub) {g : Hub} {x : Task × ℕ}
      → m h ≡ (ok x, g)
      → ((m >>= λ x. send_push x.1 title body) h).1
        ≡ record g { sent = ((m >>= λ x. send_push x.1 title body) h).1.sent }
  push_after m title body h {g} {x} e = ground (arith, send_push_frame x.1 title body g)

  -- The row that the failover writes, by the candidates that are left.
  abbrev pub failed_over :
      DaemonTaskResultPayload → Task → List WorkerDispatchCandidate → Task → Task
  failed_over p t [] r = record r {
    status = TaskStatus.failed;
    result = or_result p.result r.result;
    logs = t.logs <> (log_line t p <> exhausted_line);
  }
  failed_over p t (c ∷ _) r = record r {
    status = TaskStatus.queued;
    logs = t.logs <> (log_line t p <> next_line c);
  }

  abbrev pub requeued : ℕ → List WorkerDispatchCandidate → List Added → List Added
  requeued task_id [] jobs = jobs
  requeued task_id (c ∷ _) jobs = dispatch_job task_id 5 2000 ∷ jobs

  fail_over_effect :
      (task_id : ℕ) (p : DaemonTaskResultPayload) (l : List WorkerDispatchCandidate) (h : Hub)
      {t : Task} {owner : ℕ}
      → task_find_with_owner task_id h ≡ some (t, owner)
      → let h' = (fail_over task_id t p l h).1 in
        h' ≡ record h {
          tasks = pf.tasks.update task_id (stamped h.clock (failed_over p t l)) h.tasks;
          added = requeued task_id l h.added;
          sent = h'.sent;
        }
  unfolding fail_over task_find_with_owner
  fail_over_effect task_id p [] h {t} {owner} found =
      let row = stamped h.clock (failed_over p t []) in
      let g : Hub = record h {
        tasks = pf.tasks.update task_id row h.tasks;
        sent = to_user owner (task_updated task_id (row t)) ∷ h.sent;
      } in
      push_after
        (update_task_and_notify task_id (some TaskStatus.failed) p.result
          (some (t.logs <> (log_line t p <> exhausted_line))))
        _ _ h {g = g} {x = (row t, owner)} (unfold update_task_and_notify in ground arith)
  fail_over_effect task_id p (c ∷ l) h found = ground arith

module _ ⦃pf : Platform⦄ (p : DaemonTaskResultPayload) (h : Hub) {t : Task} {owner i : ℕ}
    {a : TaskAttempt} (found : task_find_with_owner p.task_id h ≡ some (t, owner))
    (under_way : latest_open p.task_id h ≡ some (i, a))
    (runs : t.worker_type ≡ WorkerType.codex) where
  -- the row of the attempt that is closed, and the state after it
  abbrev failed_for_capacity : TaskAttempt → TaskAttempt
  failed_for_capacity = closed h.clock TaskAttemptStatus.failed (some (format_failure_reason p))

  abbrev after_attempt : Hub
  after_attempt = record h { attempts = pf.attempts.update i failed_for_capacity h.attempts }

  -- the candidates that are left at a state
  abbrev pub left_at : Hub → List WorkerDispatchCandidate
  left_at g = candidates_in WorkerProvider.codex owner t.server_id (excluded_in p.task_id g) g

  capacity_failure_run :
      (handle_retryable_capacity_failure p h).1
      ≡ (fail_over p.task_id t p (left_at after_attempt) after_attempt).1
  unfolding handle_retryable_capacity_failure task_find_with_owner
  capacity_failure_run =
      let (there, fits) =
        pf.attempts.find_first_sound (λ a. a.started_at) (is_open_of p.task_id) h.attempts i a
          under_way in
      ground (arith, there)

  attempt_there : pf.attempts.find_unique i h.attempts ≡ some a
  attempt_there =
      (pf.attempts.find_first_sound (λ a. a.started_at) (is_open_of p.task_id) h.attempts i a
        under_way).0

  attempt_of : a.task_id ≡ p.task_id
  attempt_of =
      let fits =
        (pf.attempts.find_first_sound (λ a. a.started_at) (is_open_of p.task_id) h.attempts i a
          under_way).1 in
      ground arith

  server_excluded : contains a.server_id (excluded_in p.task_id after_attempt) ≡ true
  server_excluded = (excluded_in_iff p.task_id a.server_id after_attempt).1 (
    i,
    failed_for_capacity a,
    ground (arith, attempt_there, pf.attempts.find-update i failed_for_capacity i h.attempts),
    ground (arith, attempt_of, format_failure_reason-starts_with p),
    refl,
  )

  settled : Hub
  settled = record after_attempt {
    tasks =
        pf.tasks.update p.task_id (stamped h.clock (failed_over p t (left_at after_attempt)))
          h.tasks;
    added = requeued p.task_id (left_at after_attempt) h.added;
    sent = (fail_over p.task_id t p (left_at after_attempt) after_attempt).1.sent;
  }

  capacity_failure_settles : (handle_retryable_capacity_failure p h).1 ≡ settled
  unfolding settled task_find_with_owner
  capacity_failure_settles =
      capacity_failure_run
      ∙ fail_over_effect p.task_id p (left_at after_attempt) after_attempt {owner = owner} found

  -- What the failure has done at a state.
  abbrev pub FailedOver : Hub → Type 0
  FailedOver g =
      Sets pf.attempts i (failed_for_capacity a) h.attempts g.attempts
      × (contains a.server_id (excluded_in p.task_id g) ≡ true)
      × Sets pf.tasks p.task_id (stamped h.clock (failed_over p t (left_at g)) t) h.tasks g.tasks
      × (g.added ≡ requeued p.task_id (left_at g) h.added)

  settled-FailedOver : FailedOver settled
  unfolding settled candidates_in excluded_in task_find_with_owner
  settled-FailedOver = (
    λ j. ground (arith, attempt_there, pf.attempts.find-update i failed_for_capacity j h.attempts),
    server_excluded,
    λ j. ground (
      arith,
      found,
      pf.tasks.find-update p.task_id (stamped h.clock (failed_over p t (left_at after_attempt))) j
          h.tasks,
    ),
    refl,
  )

  -- A capacity failure of a codex task, with its owner's server there and with an attempt under
  -- way: that attempt alone is closed as failed, its server is excluded in the state that is
  -- left, and the task alone changes: it is queued again, with one dispatch job, if a candidate
  -- is left, and has failed otherwise.
  pub capacity_failure_effect : FailedOver (handle_retryable_capacity_failure p h).1
  capacity_failure_effect = subst FailedOver (sym capacity_failure_settles) settled-FailedOver

  -- After a capacity failure of a codex task with an attempt under way, no candidate for a
  -- further dispatch is at the server of that attempt.
  pub capacity_failure_moves_on :
      (c : WorkerDispatchCandidate)
      → In c (left_at (handle_retryable_capacity_failure p h).1)
      → c.server_id ≢ a.server_id
  capacity_failure_moves_on c m same =
      let g = (handle_retryable_capacity_failure p h).1 in
      let k =
        (candidates_in-IsCandidate WorkerProvider.codex owner t.server_id (excluded_in p.task_id g)
            g c).0
          m in
      let out = k.not_excluded in ground (arith, capacity_failure_effect.1)
