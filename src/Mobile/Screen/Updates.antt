-- ===== src/Mobile/Screen/Updates.antt =====
-- Which tasks the app shows after updates of the hub (mobile-app/App.tsx).
use code_caller.Prelude.{
  ℕ, ◌+◌, ◌≤◌, ◌≡◌, refl, Option, none, some, List, [], ◌∷◌, ◌==◌, map, arith, if◌then◌else◌,
  one_if,
}
use code_caller.Mobile.Items.{TaskItem, Screen}
use code_caller.Mobile.Screen.{other_tasks, put_task, find_task}
use code_caller.Mobile.Screen.Events.{task_updated, on_event, run}

-- The last row of a task among some updates, or else the one before them.
unfoldable pub latest : ℕ → List TaskItem → Option TaskItem → Option TaskItem
latest i [] before = before
latest i (t ∷ l) before = latest i l (if t.id == i then some t else before)

-- How often a task stands in a list.
unfoldable pub copies : ℕ → List TaskItem → ℕ
copies i [] = 0
copies i (t ∷ l) = one_if (t.id == i) + copies i l

module _ (i : ℕ) where
  find-other_tasks :
      (j : ℕ) (l : List TaskItem)
      → find_task i (other_tasks j l) ≡ (if j == i then none else find_task i l)
  unfolding find_task other_tasks
  find-other_tasks j [] = ground arith
  find-other_tasks j (t ∷ l) = ground (arith, find-other_tasks j l)

  copies-other_tasks :
      (j : ℕ) (l : List TaskItem) → copies i (other_tasks j l) ≡ (if j == i then 0 else copies i l)
  unfolding copies other_tasks
  copies-other_tasks j [] = ground arith
  copies-other_tasks j (t ∷ l) = ground (arith, copies-other_tasks j l)

  find-put_task :
      (t : TaskItem) (l : List TaskItem)
      → find_task i (put_task t l) ≡ (if t.id == i then some t else find_task i l)
  unfolding find_task
  find-put_task t l = ground (arith, find-other_tasks t.id l)

  copies-put_task :
      (t : TaskItem) (l : List TaskItem) → copies i l ≤ 1 → copies i (put_task t l) ≤ 1
  unfolding copies
  copies-put_task t l h = ground (arith, copies-other_tasks t.id l)

  -- If a task stands at most once in the app's list, then after any updates of tasks it still
  -- does, and the app finds the row that was sent last for it, or the one from before if none was
  -- sent.
  pub run-task_updated :
      (updates : List TaskItem) (s : Screen)
      → copies i s.tasks ≤ 1
      → (find_task i (run (map task_updated updates) s).tasks
          ≡ latest i updates (find_task i s.tasks))
        × (copies i (run (map task_updated updates) s).tasks ≤ 1)
  unfolding run on_event latest
  run-task_updated [] s h = (refl, h)
  run-task_updated (t ∷ l) s h =
      let next = on_event (task_updated t) s in
      ground (arith, run-task_updated l next (copies-put_task t s.tasks h), find-put_task t s.tasks)
