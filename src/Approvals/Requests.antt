-- ===== src/Approvals/Requests.antt =====
-- What a daemon's request for an approval does
-- (hub-api/src/approvals/approvals.service.ts, `handleDaemonApprovalRequest` and `listForOwner`).
use code_caller.Prelude.{ℕ, ◌≡◌, none, some, ◌∷◌, arith, ◌==◌}
use code_caller.Database.{Sets}
use code_caller.Schema.{Approval, Task, TaskStatus}
use code_caller.Events.{approval_pending, DaemonApprovalRequestPayload}
use code_caller.Platform.{Platform}
use code_caller.Hub.{Hub, err, to_user}
use code_caller.Prisma.{prisma_error, stamped, task_find_with_owner}
use code_caller.Notifications.Frame.{send_push_frame}
use code_caller.Approvals.{handle_daemon_approval_request, new_approval}

module _ ⦃pf : Platform⦄ (p : DaemonApprovalRequestPayload) (h : Hub) {t : Task} {owner : ℕ}
    (found : task_find_with_owner p.task_id h ≡ some (t, owner)) where
  -- A request for an approval of a task, with its server there, that has an approval already,
  -- decided or not, fails with an error of the database and changes nothing.
  pub request_again :
      (i : ℕ) {a : Approval}
      → pf.approvals.find_unique i h.approvals ≡ some a
      → a.task_id ≡ p.task_id
      → handle_daemon_approval_request p h ≡ (err prisma_error, h)
  unfolding handle_daemon_approval_request
  request_again i {a} there same =
      ground (
        arith,
        pf.approvals.find_first_none (λ _. 0) (λ _ b. b.task_id == p.task_id) h.approvals i a,
      )

  -- The first request for an approval of a task, with its server there, stores a pending approval
  -- under a new id and marks the task as awaiting it; no other approval and no other task
  -- changes, whether or not the push can be sent.
  pub request_first :
      pf.approvals.find_first (λ _. 0) (λ _ b. b.task_id == p.task_id) h.approvals ≡ none
      → let h' = (handle_daemon_approval_request p h).1 in
        let i = pf.approvals.next_id h.approvals in
        Sets pf.approvals i (new_approval p h.clock) h.approvals h'.approvals
        × Sets pf.tasks p.task_id
            (stamped h.clock (λ t. record t { status = TaskStatus.awaiting_approval }) t)
            h.tasks
            h'.tasks
  unfolding handle_daemon_approval_request
  request_first fresh =
      let wait =
        stamped h.clock (λ (t : Task). record t { status = TaskStatus.awaiting_approval }) in
      let i = pf.approvals.next_id h.approvals in
      let pushed : Hub = record h {
        approvals = pf.approvals.create (new_approval p h.clock) h.approvals;
        tasks = pf.tasks.update p.task_id wait h.tasks;
        sent = to_user owner (approval_pending i (new_approval p h.clock)) ∷ h.sent;
      } in
      let frame = send_push_frame owner "승인 필요" p.reason pushed in
      (
        λ j. ground (arith, frame, pf.approvals.find-create (new_approval p h.clock) j h.approvals),
        λ j. ground (arith, frame, pf.tasks.find-update p.task_id wait j h.tasks),
      )
