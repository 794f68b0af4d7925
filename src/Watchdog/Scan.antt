-- ===== src/Watchdog/Scan.antt =====
-- What a round of the watchdog leaves alone
-- (`scanStuckTasksOnce` in hub-api/src/tasks/tasks.processor.ts).
use code_caller.Prelude.{
  ℕ, ◌≡◌, ◌≢◌, refl, Bool, true, false, some, List, [], ◌∷◌, ◌+◌, map, arith, In, head, tail, All,
  inl, inr, Option-cases, ap,
}
use code_caller.Schema.{Task, TaskStatus, TaskAttempt}
use code_caller.Platform.{Platform}
use code_caller.Hub.{Hub, Result-cases}
use code_caller.Watchdog.{
  Stale, is_stale, with_attempt, stale_tasks, time_out, check_stale, scan_loop,
  scan_stuck_tasks_once, timed_out_attempt, failed_log, requeued_log,
}
use code_caller.Prisma.{task_update, attempt_update, stamped}

module _ ⦃pf : Platform⦄ (j : ℕ) where
  task_update_other :
      (i : ℕ) (f : Task → Task) (h : Hub)
      → j ≢ i
      → pf.tasks.find_unique j (task_update i f h).1.tasks ≡ pf.tasks.find_unique j h.tasks
  unfolding task_update
  task_update_other i f h other =
      ground (arith, pf.tasks.find-update i (stamped h.clock f) j h.tasks)

  time_out_other :
      (i : ℕ) (t : Task) (k : ℕ) (a : TaskAttempt) (h : Hub)
      → j ≢ i
      → pf.tasks.find_unique j (time_out i t k a h).1.tasks ≡ pf.tasks.find_unique j h.tasks
  unfolding time_out attempt_update
  time_out_other i t k a h other =
      let h₁ = (attempt_update k (timed_out_attempt h.clock) h).1 in
      ground (
        arith,
        task_update_other i (λ r. record r { status = TaskStatus.failed; logs = failed_log t }) h₁
            other,
        task_update_other i
            (λ r. record r { status = TaskStatus.queued; logs = requeued_log t a.server_id }) h₁
            other,
      )

  check_stale_other :
      (s : Stale) (h : Hub)
      → j ≢ s.id
      → pf.tasks.find_unique j (check_stale s h).1.tasks ≡ pf.tasks.find_unique j h.tasks
  unfolding check_stale
  check_stale_other s h other = elim (Option-cases s.attempt) [
    | inl none_there ↦ ground arith
    | inr ((i, a), e) ↦ ground (arith, time_out_other s.id s.task i a h other)
  ]

  scan_loop_other :
      (n : ℕ) (l : List Stale) (h : Hub)
      → All (λ (s : Stale). j ≢ s.id) l
      → pf.tasks.find_unique j (scan_loop n l h).1.tasks ≡ pf.tasks.find_unique j h.tasks
  unfolding scan_loop
  scan_loop_other n [] h others = refl
  scan_loop_other n (s ∷ l) h others = elim (Result-cases (check_stale s h).0) [
    | inl (m, e) ↦ ground (
      arith,
      check_stale_other s h others.0,
      scan_loop_other (n + m) l (check_stale s h).1 others.1,
    )
    | inr (x, e) ↦ ground (arith, check_stale_other s h others.0)
  ]

module _ ⦃pf : Platform⦄ (j : ℕ) (h : Hub) {t : Task}
    (there : pf.tasks.find_unique j h.tasks ≡ some t) (fresh : is_stale h j t ≡ false) where
  others_stale :
      (l : List (ℕ × Task))
      → ((e : ℕ × Task)
          → In e l
          → (pf.tasks.find_unique e.0 h.tasks ≡ some e.1) × (is_stale h e.0 e.1 ≡ true))
      → All (λ (s : Stale). j ≢ s.id) (map (with_attempt h) l)
  others_stale [] sound = tt
  others_stale (e ∷ l) sound =
      let (row, stale) = sound e (head refl) in
      (
        (λ same. ground (arith, ap (λ i. pf.tasks.find_unique i h.tasks) same)),
        others_stale l (λ x m. sound x (tail m)),
      )

  -- A round of the watchdog leaves the row of a task as it is that does not run or was updated
  -- within the timeout.
  pub scan_leaves_fresh : pf.tasks.find_unique j (scan_stuck_tasks_once h).1.tasks ≡ some t
  unfolding scan_stuck_tasks_once stale_tasks
  scan_leaves_fresh =
      let rows = pf.tasks.find_many (λ _ _. Bool.true) (is_stale h) h.tasks in
      let sound : (e : ℕ × Task)
          → In e rows
          → (pf.tasks.find_unique e.0 h.tasks ≡ some e.1) × (is_stale h e.0 e.1 ≡ true) =
        λ e m. pf.tasks.find_many_sound (λ _ _. Bool.true) (is_stale h) h.tasks e.0 e.1 m in
      ground (arith, scan_loop_other j 0 (map (with_attempt h) rows) h (others_stale rows sound))
