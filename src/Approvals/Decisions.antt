-- ===== src/Approvals/Decisions.antt =====
-- What a decision on an approval does (hub-api/src/approvals/approvals.service.ts, `decide`).
use code_caller.Prelude.{ℕ, ◌≡◌, some, ◌∷◌, arith, if◌then◌else◌, false, inl, inr, Option-cases}
use code_caller.Database.{Sets}
use code_caller.Schema.{Approval, ApprovalStatus, Task, is_pending_approval}
use code_caller.Events.{approval_decision, approval_resolved}
use code_caller.Platform.{Platform}
use code_caller.Hub.{Hub, Sent, ok, err, Error, Result-cases, to_server, to_user}
use code_caller.Prisma.{stamped}
use code_caller.Realtime.{is_server_online}
use code_caller.Approvals.{
  DecideApproval, decide, approval_find, decided_status, decided_task_status, or_kept, reason_text,
}

module _ ⦃pf : Platform⦄ where
  -- A decision that is refused changes nothing.
  pub decide_refused :
      (owner_id approval_id : ℕ) (dto : DecideApproval) (h : Hub) {e : Error}
      → (decide owner_id approval_id dto h).0 ≡ err e
      → (decide owner_id approval_id dto h).1 ≡ h
  unfolding decide
  decide_refused owner_id approval_id dto h p = ground arith

  -- The rows that a decision writes.
  abbrev pub decided : DecideApproval → ℕ → Approval → Approval
  decided dto now a = record a {
    status = decided_status dto.approve;
    decided_at = some now;
    reason = or_kept dto.reason a.reason;
  }

  abbrev pub released : DecideApproval → ℕ → Task → Task
  released dto now = stamped now (λ t. record t { status = decided_task_status dto.approve })

  abbrev pub decision_event : DecideApproval → Approval → ℕ → Sent
  decision_event dto a server_id =
      to_server server_id (approval_decision a.task_id dto.approve (reason_text dto.reason))

module _ ⦃pf : Platform⦄ where
  approval_find_parts :
      (i : ℕ) (h : Hub) {a : Approval} {t : Task} {owner : ℕ}
      → approval_find i h ≡ some (a, t, owner)
      → (pf.approvals.find_unique i h.approvals ≡ some a)
        × (pf.tasks.find_unique a.task_id h.tasks ≡ some t)
  unfolding approval_find
  approval_find_parts i h p = ground arith

module _ ⦃pf : Platform⦄ (owner_id approval_id : ℕ) (dto : DecideApproval) (h : Hub) {a : Approval}
    {t : Task} (found : approval_find approval_id h ≡ some (a, t, owner_id)) where
  -- The owner's decision on a pending approval is recorded on that approval and on its task and
  -- on no other; it is sent to the daemon of the task's server if one is connected, and the
  -- owner's apps hear of it in any case.
  pub decide_effect :
      a.status ≡ ApprovalStatus.pending
      → let (r, h') = decide owner_id approval_id dto h in
        (r ≡ ok (approval_id, decided dto h.clock a))
        × Sets pf.approvals approval_id (decided dto h.clock a) h.approvals h'.approvals
        × Sets pf.tasks a.task_id (released dto h.clock t) h.tasks h'.tasks
        × (h'.sent
            ≡ to_user owner_id (approval_resolved approval_id (decided dto h.clock a))
              ∷ (if is_server_online t.server_id h
                  then decision_event dto a t.server_id ∷ h.sent
                  else h.sent))
  unfolding decide approval_find is_server_online
  decide_effect p = (
    ground arith,
    λ j. ground (arith, pf.approvals.find-update approval_id (decided dto h.clock) j h.approvals),
    λ j. ground (arith, pf.tasks.find-update a.task_id (released dto h.clock) j h.tasks),
    ground arith,
  )

module _ ⦃pf : Platform⦄ (owner_id approval_id : ℕ) (dto : DecideApproval) (h : Hub) where
  -- A decision that succeeds was the owner's, on a pending approval.
  pub decide_ok :
      {r : ℕ × Approval}
      → (decide owner_id approval_id dto h).0 ≡ ok r
      → (a : Approval) × (t : Task) × (approval_find approval_id h ≡ some (a, t, owner_id))
        × (a.status ≡ ApprovalStatus.pending)
  unfolding decide
  decide_ok p = elim (Option-cases (approval_find approval_id h)) [
    | inl missing ↦ absurd (ground arith)
    | inr ((a, t, o), e) ↦ (a, t, ground arith, ground arith)
  ]

  -- Whoever decides on an approval that is not pending is refused.
  decide_not_pending :
      {a : Approval}
      → pf.approvals.find_unique approval_id h.approvals ≡ some a
      → is_pending_approval a.status ≡ false
      → (e : Error) × ((decide owner_id approval_id dto h).0 ≡ err e)
  decide_not_pending {a} found settled = elim (Result-cases (decide owner_id approval_id dto h).0) [
    | inr e ↦ e
    | inl (r, e) ↦
        let (b, t, f, q) = decide_ok e in
        let g = (approval_find_parts approval_id h f).0 in absurd (ground arith)
  ]

module _ ⦃pf : Platform⦄ (owner_id approval_id : ℕ) (dto : DecideApproval) (h : Hub) where
  -- An approval is decided once: right after a decision that succeeded, a further decision on it,
  -- by any user and with any content, is refused and changes nothing.
  pub decide_once :
      (owner' : ℕ) (dto' : DecideApproval) {r : ℕ × Approval}
      → (decide owner_id approval_id dto h).0 ≡ ok r
      → let h' = (decide owner_id approval_id dto h).1 in
        (e : Error) × (decide owner' approval_id dto' h' ≡ (err e, h'))
  decide_once owner' dto' p =
      let h' = (decide owner_id approval_id dto h).1 in
      let (a, t, found, waits) = decide_ok owner_id approval_id dto h p in
      let row = (decide_effect owner_id approval_id dto h found waits).1 approval_id in
      let (e, refused) =
        decide_not_pending owner' approval_id dto' h' {a = decided dto h.clock a} (ground arith)
          (ground arith) in
      (e, ground (arith, refused, decide_refused owner' approval_id dto' h' refused))
