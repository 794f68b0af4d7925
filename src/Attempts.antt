-- ===== src/Attempts.antt =====
-- The attempts of a task, as hub-api/src/tasks/tasks.service.ts and
-- hub-api/src/tasks/tasks.processor.ts read and close them, and the limits of the watchdog.
pub mod Exclusion
use code_caller.Prelude.{
  ℕ, ◌*◌, String, Bool, false, ◌&&◌, ◌||◌, Option, none, some, List, [], ◌∷◌, ◌==◌, if◌then◌else◌,
  contains, starts_with,
}
use code_caller.Text.{parse_positive}
use code_caller.Schema.{TaskAttempt, TaskAttemptStatus, is_open, is_failed_attempt, is_timed_out}
use code_caller.Platform.{Platform}
use code_caller.Hub.{Hub, Action, pure, gets, ◌>>◌}
use code_caller.Prisma.{attempt_update}

abbrev pub retryable_capacity_failure_prefix : String
retryable_capacity_failure_prefix = "CAPACITY_EXHAUSTED"

abbrev pub reason_starts : Option String → Bool
reason_starts none = false
reason_starts (some reason) = starts_with reason retryable_capacity_failure_prefix

-- the `where` of `retryExcludedServerIds`
abbrev pub is_excluding : ℕ → ℕ → TaskAttempt → Bool
is_excluding task_id i a =
    a.task_id == task_id
    && (is_timed_out a.status || (is_failed_attempt a.status && reason_starts a.failure_reason))

-- `distinct: ['serverId']`, and the column
unfoldable pub distinct_ids : List (ℕ × TaskAttempt) → List ℕ
distinct_ids [] = []
distinct_ids ((i, a) ∷ l) =
    let rest = distinct_ids l in if contains a.server_id rest then rest else a.server_id ∷ rest

-- the `where` of the attempt that is under way
abbrev pub is_open_of : ℕ → ℕ → TaskAttempt → Bool
is_open_of task_id i a = a.task_id == task_id && is_open a.status

module _ ⦃pf : Platform⦄ where
  unfoldable pub excluded_in : ℕ → Hub → List ℕ
  unfolding distinct_ids
  excluded_in task_id h =
      distinct_ids (pf.attempts.find_many (λ _ _. Bool.true) (is_excluding task_id) h.attempts)

  abbrev pub retry_excluded_server_ids : ℕ → Action (List ℕ)
  retry_excluded_server_ids task_id = gets (excluded_in task_id)

  abbrev pub latest_open : ℕ → Hub → Option (ℕ × TaskAttempt)
  latest_open task_id h = pf.attempts.find_first (λ a. a.started_at) (is_open_of task_id) h.attempts

  unfoldable pub touch_running_attempt : ℕ → Action (Unit {0})
  unfolding attempt_update
  touch_running_attempt task_id h = elim (latest_open task_id h) [
    | none ↦ pure tt h
    | some (i, _) ↦
        (do
          attempt_update i
              (λ a. record a { status = TaskAttemptStatus.running; last_seen_at = h.clock })
          pure tt)
          h
  ]

  -- A reason that is `undefined` leaves the column as it is.
  abbrev pub or_kept : Option String → Option String → Option String
  or_kept none old = old
  or_kept (some new) old = some new

  abbrev pub closed : ℕ → TaskAttemptStatus → Option String → TaskAttempt → TaskAttempt
  closed now status reason a = record a {
    status = status;
    failure_reason = or_kept reason a.failure_reason;
    last_seen_at = now;
    finished_at = some now;
  }

  unfoldable pub finish_running_attempt : ℕ → TaskAttemptStatus → Option String → Action (Unit {0})
  unfolding attempt_update
  finish_running_attempt task_id status reason h = elim (latest_open task_id h) [
    | none ↦ pure tt h
    | some (i, _) ↦ (do attempt_update i (closed h.clock status reason); pure tt) h
  ]

  -- `positiveIntFromEnv`
  unfoldable pub positive_int_from_env : String → ℕ → ℕ
  positive_int_from_env name fallback = elim (pf.env name) [
    | none ↦ fallback
    | some value ↦ elim (parse_positive value) [ none ↦ fallback | some n ↦ n ]
  ]

  unfoldable pub watchdog_timeout_ms : ℕ
  unfolding positive_int_from_env
  watchdog_timeout_ms = positive_int_from_env "TASK_WATCHDOG_TIMEOUT_MS" (15 * 60 * 1000)

  unfoldable pub watchdog_interval_ms : ℕ
  unfolding positive_int_from_env
  watchdog_interval_ms = positive_int_from_env "TASK_WATCHDOG_INTERVAL_MS" (60 * 1000)

  unfoldable pub watchdog_max_requeues : ℕ
  unfolding positive_int_from_env
  watchdog_max_requeues = positive_int_from_env "TASK_WATCHDOG_MAX_REQUEUES" 2
