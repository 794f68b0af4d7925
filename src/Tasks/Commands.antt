-- ===== src/Tasks/Commands.antt =====
-- What an owner's commands on tasks do (hub-api/src/tasks/tasks.service.ts, `submit` and
-- `cancel`).
use code_caller.Prelude.{ℕ, ◌≡◌, some, ◌∷◌, arith, if◌then◌else◌}
use code_caller.Database.{Sets}
use code_caller.Schema.{Server, Task, TaskStatus, WorkerType}
use code_caller.Events.{task_cancel, task_updated}
use code_caller.Platform.{Platform}
use code_caller.Hub.{Hub, ErrorKind, ok, err, to_server, to_user, dispatch_job, watchdog_job}
use code_caller.Prisma.{stamped, task_find_with_owner}
use code_caller.Realtime.{is_server_online, not_connected}
use code_caller.Attempts.{watchdog_interval_ms}
use code_caller.Tasks.{CreateTask, submit, cancel, new_task}

module _ ⦃pf : Platform⦄ (owner_id : ℕ) (dto : CreateTask) (h : Hub) {s : Server}
    (there : pf.servers.find_unique dto.server_id h.servers ≡ some s)
    (owned : s.owner_id ≡ owner_id) where
  -- The owner's task for a server that exists is stored as queued under a new id and no other
  -- task changes; one dispatch job for it and the watchdog's job are added, and nothing is sent
  -- yet.
  pub submit_effect :
      let (r, h') = submit owner_id dto h in
      let i = pf.tasks.next_id h.tasks in
      (r ≡ ok (i, new_task dto h.clock))
      × Sets pf.tasks i (new_task dto h.clock) h.tasks h'.tasks
      × (h'.added ≡ watchdog_job watchdog_interval_ms 10 ∷ dispatch_job i 5 2000 ∷ h.added)
      × (h'.sent ≡ h.sent)
  unfolding submit
  submit_effect = (
    ground arith,
    λ j. ground (arith, pf.tasks.find-create (new_task dto h.clock) j h.tasks),
    ground arith,
    ground arith,
  )

module _ ⦃pf : Platform⦄ (owner_id task_id : ℕ) (h : Hub) {t : Task}
    (found : task_find_with_owner task_id h ≡ some (t, owner_id))
    (runs : t.worker_type ≡ WorkerType.codex) where
  abbrev pub cancelled : ℕ → Task → Task
  cancelled now = stamped now (λ t. record t { status = TaskStatus.cancelled })

  -- The owner's cancellation of a codex task, whatever its status, is sent to the daemon of the
  -- task's server and recorded on that task alone if that daemon is connected; if not, it is
  -- refused, and no task changes and nothing is sent.
  pub cancel_effect :
      let (r, h') = cancel owner_id task_id h in
      (r ≡ (
        if is_server_online t.server_id h
        then ok (task_id, cancelled h.clock t)
        else err
            (record { kind = ErrorKind.service_unavailable; message = not_connected t.server_id })))
      × Sets pf.tasks task_id
          (if is_server_online t.server_id h then cancelled h.clock t else t)
          h.tasks
          h'.tasks
      × (h'.sent ≡ (
          if is_server_online t.server_id h
          then to_user owner_id (task_updated task_id (cancelled h.clock t))
            ∷ to_server t.server_id (task_cancel task_id)
            ∷ h.sent
          else h.sent))
  unfolding cancel task_find_with_owner
  cancel_effect = (
    ground arith,
    λ j. ground (arith, pf.tasks.find-update task_id (cancelled h.clock) j h.tasks),
    ground arith,
  )
