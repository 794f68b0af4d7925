-- ===== src/TaskResults/Reports.antt =====
-- What a daemon's reports on a task do (hub-api/src/tasks/tasks.service.ts).
use mathlib.Core.Path.{subst}
use code_caller.Prelude.{ℕ, ◌≡◌, refl, false, some, List, ◌∷◌, arith, ◌<>◌, String, sym, ◌∙◌}
use code_caller.Database.{Sets}
use code_caller.Schema.{Task, TaskAttempt}
use code_caller.Events.{DaemonTaskResultPayload, task_updated}
use code_caller.Platform.{Platform}
use code_caller.Hub.{Hub, Sent, to_user}
use code_caller.Prisma.{stamped, task_find_with_owner}
use code_caller.Notifications.{send_push}
use code_caller.Notifications.Frame.{send_push_frame}
use code_caller.Attempts.{latest_open, is_open_of, closed}
use code_caller.Tasks.{
  is_retryable_capacity_failure, result_status, attempt_status, attempt_reason, or_result,
  result_title,
}
use code_caller.TaskResults.{handle_daemon_task_result}

module _ ⦃pf : Platform⦄ (p : DaemonTaskResultPayload) (h : Hub) {t : Task} {owner i : ℕ}
    {a : TaskAttempt} (found : task_find_with_owner p.task_id h ≡ some (t, owner))
    (under_way : latest_open p.task_id h ≡ some (i, a))
    (final : is_retryable_capacity_failure p ≡ false) where
  abbrev pub reported : Task → Task
  reported r =
      stamped h.clock
        (λ r. record r { status = result_status p.status; result = or_result p.result r.result }) r

  abbrev pub ended : TaskAttempt → TaskAttempt
  ended = closed h.clock (attempt_status p.status) (attempt_reason p.status)

  abbrev told : Hub
  told = record h {
    attempts = pf.attempts.update i ended h.attempts;
    tasks = pf.tasks.update p.task_id reported h.tasks;
    sent = to_user owner (task_updated p.task_id (reported t)) ∷ h.sent;
  }

  abbrev body_text : String
  body_text = "작업(" <> (pf.id_text p.task_id <> (")이 " <> (result_title p.status <> "되었습니다.")))

  abbrev Reported : Hub → Type 0
  Reported g =
      Sets pf.attempts i (ended a) h.attempts g.attempts
      × Sets pf.tasks p.task_id (reported t) h.tasks g.tasks
      × (g.added ≡ h.added)

  result_run :
      (handle_daemon_task_result p h).1 ≡ (send_push owner (result_title p.status) body_text told).1
  unfolding handle_daemon_task_result task_find_with_owner
  result_run =
      let (there, fits) =
        pf.attempts.find_first_sound (λ a. a.started_at) (is_open_of p.task_id) h.attempts i a
          under_way in
      ground (arith, there)

  told-Reported : (s : List Sent) → Reported (record told { sent = s })
  unfolding task_find_with_owner
  told-Reported s =
      let (there, fits) =
        pf.attempts.find_first_sound (λ a. a.started_at) (is_open_of p.task_id) h.attempts i a
          under_way in
      (
        λ j. ground (arith, there, pf.attempts.find-update i ended j h.attempts),
        λ j. ground (arith, found, pf.tasks.find-update p.task_id reported j h.tasks),
        refl,
      )

  -- A result that is no capacity failure, for a task with its server there and an attempt under
  -- way, closes that attempt alone, records the outcome on that task alone, and adds no job.
  pub result_effect :
      let h' = (handle_daemon_task_result p h).1 in
      Sets pf.attempts i (ended a) h.attempts h'.attempts
      × Sets pf.tasks p.task_id (reported t) h.tasks h'.tasks
      × (h'.added ≡ h.added)
  result_effect =
      let after = (send_push owner (result_title p.status) body_text told).1 in
      subst Reported
        (sym (result_run ∙ send_push_frame owner (result_title p.status) body_text told))
        (told-Reported after.sent)
