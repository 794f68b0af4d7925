-- ===== src/Approvals.antt =====
-- hub-api/src/approvals/approvals.service.ts and the parameter that
-- hub-api/src/approvals/approvals.controller.ts reads.
pub mod Decisions
pub mod Requests
use code_caller.Prelude.{
  ℕ, String, Bool, true, false, not, ◌&&◌, Option, none, some, List, ◌==◌, if◌then◌else◌, is_some,
  leb, map,
}
use code_caller.Schema.{Task, TaskStatus, Approval, ApprovalStatus, is_pending_approval}
use code_caller.Events.{
  approval_decision, approval_pending, approval_resolved, DaemonApprovalRequestPayload,
}
use code_caller.Platform.{Platform}
use code_caller.Hub.{
  Hub, Action, ErrorKind, pure, rethrow, or_raise, raise_if, gets, try_catch, ◌>>=◌, ◌>>◌,
}
use code_caller.Prisma.{prisma_error, task_update, approval_update, task_find_with_owner}
use code_caller.Realtime.{dispatch_to_server, notify_user}
use code_caller.Notifications.{send_push}

-- The reason may be missing or `null`, which `@IsOptional` lets through as well.
pub record DecideApproval : Type 0 where
  pub approve : Bool
  pub reason : Option (Option String)

abbrev pub approval_code : ApprovalStatus → ℕ
approval_code ApprovalStatus.pending = 0
approval_code ApprovalStatus.approved = 1
approval_code ApprovalStatus.rejected = 2

abbrev pub matches_status : Option ApprovalStatus → ApprovalStatus → Bool
matches_status none s = true
matches_status (some w) s = approval_code s == approval_code w

abbrev pub decided_status : Bool → ApprovalStatus
decided_status true = ApprovalStatus.approved
decided_status false = ApprovalStatus.rejected

abbrev pub decided_task_status : Bool → TaskStatus
decided_task_status true = TaskStatus.running
decided_task_status false = TaskStatus.cancelled

abbrev or_kept : Option (Option String) → Option String → Option String
or_kept none old = old
or_kept (some new) old = new

-- The event does not tell a `null` from a missing reason: the daemon reads neither.
abbrev pub reason_text : Option (Option String) → Option String
reason_text none = none
reason_text (some r) = r

module _ ⦃pf : Platform⦄ where
  abbrev pub task_owned_by : ℕ → Option (Task × ℕ) → Bool
  task_owned_by owner_id none = false
  task_owned_by owner_id (some (t, owner)) = owner == owner_id

  abbrev pub is_listed : ℕ → Option ApprovalStatus → Hub → ℕ → Approval → Bool
  is_listed owner_id status h i a =
      task_owned_by owner_id (task_find_with_owner a.task_id h) && matches_status status a.status

  -- `findMany` with `orderBy: { requestedAt: 'desc' }`
  -- `include: { task: true }`
  abbrev pub including_task : Hub → ℕ × Approval → ℕ × Approval × Option Task
  including_task h (i, a) = (i, a, pf.tasks.find_unique a.task_id h.tasks)

  unfoldable pub list_for_owner :
      ℕ → Option ApprovalStatus → Action (List (ℕ × Approval × Option Task))
  unfolding task_find_with_owner
  list_for_owner owner_id status = gets λ h. map (including_task h) (
      pf.approvals.find_many (λ a b. leb b.1.requested_at a.1.requested_at)
        (is_listed owner_id status h) h.approvals)

  -- `findUnique` with `include: { task: { include: { server: true } } }`
  unfoldable pub approval_find : ℕ → Hub → Option (Approval × Task × ℕ)
  unfolding task_find_with_owner
  approval_find i h = elim (pf.approvals.find_unique i h.approvals) [
    | none ↦ none
    | some a ↦ elim (task_find_with_owner a.task_id h) [
      | none ↦ none
      | some (t, owner) ↦ some (a, t, owner)
    ]
  ]

  -- The two updates of `decide`. A reason that is `undefined` leaves the column as it is.
  unfoldable pub record_decision : ℕ → ℕ → DecideApproval → Action Approval
  unfolding approval_update task_update
  record_decision approval_id task_id dto = do
    now ← gets (λ h. h.clock)
    updated ← approval_update approval_id (λ a. record a {
      status = decided_status dto.approve;
      decided_at = some now;
      reason = or_kept dto.reason a.reason;
    })
    task_update task_id (λ t. record t { status = decided_task_status dto.approve })
    pure updated

  unfoldable pub decide : ℕ → ℕ → DecideApproval → Action (ℕ × Approval)
  unfolding approval_find record_decision dispatch_to_server
  decide owner_id approval_id dto = do
    found ← gets (approval_find approval_id)
    (approval, task, owner) ← or_raise found ErrorKind.not_found "승인 요청을 찾을 수 없습니다."
    raise_if (not (owner == owner_id)) ErrorKind.forbidden "해당 승인 요청에 접근할 권한이 없습니다."
    raise_if (not (is_pending_approval approval.status)) ErrorKind.bad_request "이미 처리된 승인 요청입니다."
    updated ← record_decision approval_id approval.task_id dto
    try_catch
        (dispatch_to_server task.server_id
          (approval_decision approval.task_id dto.approve (reason_text dto.reason)))
        (λ _. pure tt)
    notify_user owner_id (approval_resolved approval_id updated)
    pure (approval_id, updated)

  -- `approval.create`; `taskId` is unique in the schema.
  unfoldable pub approval_create : Approval → Action ℕ
  approval_create a h =
      if is_some (pf.approvals.find_first (λ _. 0) (λ _ b. b.task_id == a.task_id) h.approvals)
      then rethrow prisma_error h
      else pure (pf.approvals.next_id h.approvals)
          (record h { approvals = pf.approvals.create a h.approvals })

  abbrev pub new_approval : DaemonApprovalRequestPayload → ℕ → Approval
  new_approval p now = record {
    task_id = p.task_id;
    status = ApprovalStatus.pending;
    requested_at = now;
    decided_at = none;
    reason = some p.reason;
  }

  unfoldable pub handle_daemon_approval_request : DaemonApprovalRequestPayload → Action (Unit {0})
  unfolding task_find_with_owner approval_create task_update
  handle_daemon_approval_request p h = elim (task_find_with_owner p.task_id h) [
    | none ↦ pure tt h
    | some (task, owner) ↦
        (do
          i ← approval_create (new_approval p h.clock)
          task_update p.task_id (λ t. record t { status = TaskStatus.awaiting_approval })
          notify_user owner (approval_pending i (new_approval p h.clock))
          send_push owner "승인 필요" p.reason)
          h
  ]
