-- ===== src/Watchdog/TimeOuts.antt =====
-- What the watchdog does to a task whose attempt has gone stale
-- (`scanStuckTasksOnce` in hub-api/src/tasks/tasks.processor.ts).
use mathlib.Core.Path.{subst}
use code_caller.Prelude.{
  ℕ, sym, ap, suc, ◌≡◌, refl, Bool, true, false, some, List, ◌∷◌, arith, leb, contains,
}
use code_caller.Database.{Sets}
use code_caller.Schema.{Task, TaskStatus, TaskAttempt, is_open}
use code_caller.Platform.{Platform}
use code_caller.Hub.{Hub, Added, ok, dispatch_job}
use code_caller.Prisma.{stamped}
use code_caller.Attempts.{watchdog_max_requeues, excluded_in}
use code_caller.Attempts.Exclusion.{excluded_in_iff}
use code_caller.Watchdog.{
  time_out, timed_out_attempt, timed_out_count, is_timed_out_of, failed_log, requeued_log,
}

module _ ⦃pf : Platform⦄ where
  -- The row that the watchdog writes, by whether the limit of requeues is reached.
  abbrev pub given_up : Bool → Task → TaskAttempt → Task → Task
  given_up true t a r = record r { status = TaskStatus.failed; logs = failed_log t }
  given_up false t a r = record r { status = TaskStatus.queued; logs = requeued_log t a.server_id }

  abbrev pub requeued : Bool → ℕ → List Added → List Added
  requeued true task_id jobs = jobs
  requeued false task_id jobs = dispatch_job task_id 5 2000 ∷ jobs

  -- whether the attempts that timed out before have used up the requeues
  abbrev pub is_last : ℕ → Hub → Bool
  is_last task_id h = leb watchdog_max_requeues (timed_out_count task_id h)

module _ ⦃pf : Platform⦄ (task_id i : ℕ) (h : Hub) (t : Task) {r : Task} {a : TaskAttempt}
    (found : pf.tasks.find_unique task_id h.tasks ≡ some r)
    (there : pf.attempts.find_unique i h.attempts ≡ some a) (its : a.task_id ≡ task_id)
    (under_way : is_open a.status ≡ true) where
  settled : Hub
  settled = record h {
    attempts = pf.attempts.update i (timed_out_attempt h.clock) h.attempts;
    tasks = pf.tasks.update task_id (stamped h.clock (given_up (is_last task_id h) t a)) h.tasks;
    added = requeued (is_last task_id h) task_id h.added;
  }

  time_out-settled : time_out task_id t i a h ≡ (ok tt, settled)
  unfolding time_out settled
  time_out-settled = ground arith

  -- What the timeout has done at a state.
  abbrev pub TimedOut : Hub → Type 0
  TimedOut g =
      (timed_out_count task_id g ≡ suc (timed_out_count task_id h))
      × (contains a.server_id (excluded_in task_id g) ≡ true)
      × Sets pf.attempts i (timed_out_attempt h.clock a) h.attempts g.attempts
      × Sets pf.tasks task_id (stamped h.clock (given_up (is_last task_id h) t a) r) h.tasks g.tasks
      × (g.added ≡ requeued (is_last task_id h) task_id h.added)

  settled-TimedOut : TimedOut settled
  unfolding settled
  settled-TimedOut =
      let f = timed_out_attempt h.clock in
      let now = pf.attempts.find-update i f i h.attempts in
      (
        ground (arith, pf.attempts.count-update (is_timed_out_of task_id) i f h.attempts a there),
        (excluded_in_iff task_id a.server_id settled).1
            (i, f a, ground (arith, now, there), ground (arith, its), refl),
        λ j. ground (arith, pf.attempts.find-update i f j h.attempts),
        λ j. ground (
          arith,
          pf.tasks.find-update task_id (stamped h.clock (given_up (is_last task_id h) t a)) j
              h.tasks,
        ),
        refl,
      )

  -- When the watchdog times out an open attempt of a task, both of which exist, the number of
  -- timed out attempts of the task grows by one, the attempt's server is excluded in the state
  -- that is left, that attempt alone is closed as timed out, and that task alone changes: it is
  -- queued again, with one dispatch job, while fewer attempts than the limit had timed out
  -- before, and has failed otherwise.
  pub time_out_effect : TimedOut (time_out task_id t i a h).1
  time_out_effect = subst TimedOut (ap (λ x. x.1) (sym time_out-settled)) settled-TimedOut
