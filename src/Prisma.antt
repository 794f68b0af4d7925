-- ===== src/Prisma.antt =====
-- The calls of the Prisma client, as actions on the tables of the hub. An `update` at an id that
-- is missing throws. Prisma sets `updatedAt` of a task at each update.
use code_caller.Prelude.{ℕ, Option, none, some}
use code_caller.Schema.{Server, ServerRegistrationRequest, Task, TaskAttempt, Approval}
use code_caller.Platform.{Platform}
use code_caller.Hub.{Hub, Action, Error, ErrorKind, ok, err}

module _ ⦃pf : Platform⦄ where
  abbrev pub prisma_error : Error
  prisma_error = record { kind = ErrorKind.database; message = pf.prisma_message }

  -- `data` of an update of a task, with the column that Prisma fills in
  abbrev pub stamped : ℕ → (Task → Task) → Task → Task
  stamped now f t = record (f t) { updated_at = now }

  unfoldable pub task_update : ℕ → (Task → Task) → Action Task
  task_update i f h = elim (pf.tasks.find_unique i h.tasks) [
    | none ↦ (err prisma_error, h)
    | some t ↦ (
      ok (stamped h.clock f t),
      record h { tasks = pf.tasks.update i (stamped h.clock f) h.tasks },
    )
  ]

  unfoldable pub attempt_update : ℕ → (TaskAttempt → TaskAttempt) → Action TaskAttempt
  attempt_update i f h = elim (pf.attempts.find_unique i h.attempts) [
    | none ↦ (err prisma_error, h)
    | some a ↦ (ok (f a), record h { attempts = pf.attempts.update i f h.attempts })
  ]

  unfoldable pub attempt_create : TaskAttempt → Action ℕ
  attempt_create a h =
      (ok (pf.attempts.next_id h.attempts), record h { attempts = pf.attempts.create a h.attempts })

  unfoldable pub server_update : ℕ → (Server → Server) → Action Server
  server_update i f h = elim (pf.servers.find_unique i h.servers) [
    | none ↦ (err prisma_error, h)
    | some s ↦ (ok (f s), record h { servers = pf.servers.update i f h.servers })
  ]

  unfoldable pub approval_update : ℕ → (Approval → Approval) → Action Approval
  approval_update i f h = elim (pf.approvals.find_unique i h.approvals) [
    | none ↦ (err prisma_error, h)
    | some a ↦ (ok (f a), record h { approvals = pf.approvals.update i f h.approvals })
  ]

  unfoldable pub registration_update :
      ℕ → (ServerRegistrationRequest → ServerRegistrationRequest) → Action ServerRegistrationRequest
  registration_update i f h = elim (pf.registrations.find_unique i h.registrations) [
    | none ↦ (err prisma_error, h)
    | some r ↦ (ok (f r), record h { registrations = pf.registrations.update i f h.registrations })
  ]

  -- a task with `include: { server: { select: { ownerId: true } } }`
  unfoldable pub task_find_with_owner : ℕ → Hub → Option (Task × ℕ)
  task_find_with_owner i h = elim (pf.tasks.find_unique i h.tasks) [
    | none ↦ none
    | some t ↦ elim (pf.servers.find_unique t.server_id h.servers) [
      | none ↦ none
      | some s ↦ some (t, s.owner_id)
    ]
  ]
