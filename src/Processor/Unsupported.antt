-- ===== src/Processor/Unsupported.antt =====
-- A task of a worker type that the registry has no adapter for (hub-api/src/tasks/tasks.processor.ts,
-- hub-api/src/tasks/tasks.service.ts, hub-api/src/workers/worker-registry.service.ts).
use code_caller.Prelude.{ℕ, ◌≡◌, ◌≢◌, refl, some, none, arith, ◌<>◌}
use code_caller.Schema.{Task, Server, TaskStatus, WorkerType}
use code_caller.Platform.{Platform}
use code_caller.Hub.{Hub, ok, err, Error, ErrorKind}
use code_caller.Prisma.{task_find_with_owner}
use code_caller.Tasks.{CreateTask, submit, cancel, new_task}
use code_caller.Workers.{get, adapter_for, worker_type_name}
use code_caller.Dispatch.{dispatch_task}
use code_caller.Processor.{process, dispatch}

no_adapter : (w : WorkerType) → w ≢ WorkerType.codex → adapter_for w ≡ none
no_adapter WorkerType.codex other = absurd (other refl)
no_adapter WorkerType.claude other = refl
no_adapter WorkerType.gemini other = refl

abbrev pub type_error : WorkerType → Error
type_error w = record {
  kind = ErrorKind.bad_request;
  message = "지원하지 않는 워커 타입입니다: " <> worker_type_name w;
}

module _ ⦃pf : Platform⦄ (task_id user_id : ℕ) (h : Hub) {t : Task}
    (found : task_find_with_owner task_id h ≡ some (t, user_id))
    (other : t.worker_type ≢ WorkerType.codex) where
  dispatch_unsupported :
      t.status ≡ TaskStatus.queued
      → process (dispatch (some task_id)) h ≡ (err (type_error t.worker_type), h)
  unfolding process dispatch_task get task_find_with_owner
  dispatch_unsupported waits = ground (arith, no_adapter t.worker_type other)

  cancel_unsupported : cancel user_id task_id h ≡ (err (type_error t.worker_type), h)
  unfolding cancel get task_find_with_owner
  cancel_unsupported = ground (arith, no_adapter t.worker_type other)

module _ ⦃pf : Platform⦄ (user_id : ℕ) (dto : CreateTask) (h : Hub) {s : Server}
    (there : pf.servers.find_unique dto.server_id h.servers ≡ some s) (owned : s.owner_id ≡ user_id)
    (other : dto.worker_type ≢ WorkerType.codex) where
  submitted_there :
      task_find_with_owner (pf.tasks.next_id h.tasks) (submit user_id dto h).1
      ≡ some (new_task dto h.clock, user_id)
  unfolding submit task_find_with_owner
  submitted_there =
      ground (arith, pf.tasks.find-create (new_task dto h.clock) (pf.tasks.next_id h.tasks) h.tasks)

  -- A task of a worker type other than CODEX is accepted from the owner of a server, as queued;
  -- its dispatch job then fails with the error for an unsupported type, its cancellation by the
  -- owner fails with the same error, and neither changes anything.
  pub submit_unsupported :
      let (r, h') = submit user_id dto h in
      let i = pf.tasks.next_id h.tasks in
      (r ≡ ok (i, new_task dto h.clock))
      × (process (dispatch (some i)) h' ≡ (err (type_error dto.worker_type), h'))
      × (cancel user_id i h' ≡ (err (type_error dto.worker_type), h'))
  unfolding submit
  submit_unsupported =
      let h' = (submit user_id dto h).1 in
      let i = pf.tasks.next_id h.tasks in
      (
        ground arith,
        dispatch_unsupported i user_id h' submitted_there other refl,
        cancel_unsupported i user_id h' submitted_there other,
      )
