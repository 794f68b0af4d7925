-- ===== src/Api/Isolation.antt =====
-- What a request leaves of the servers, tasks and approvals of others (the controllers of
-- hub-api/src).
use code_caller.Prelude.{ℕ, ◌≡◌, inl, inr, ap, Bool, arith, none, some, Option-cases, ◌==◌}
use code_caller.Schema.{Task, TaskStatus, Approval}
use code_caller.Platform.{Platform}
use code_caller.Prisma.{task_find_with_owner, stamped}
use code_caller.Hub.{Hub, Action, Result-cases}
use code_caller.Tasks.{CreateTask, submit, cancel, new_task}
use code_caller.Servers
use code_caller.Servers.{CreateServer, server_delete, new_server, task_is_of}
use code_caller.RegistrationDecisions
use code_caller.Approvals
use code_caller.Approvals.{DecideApproval, approval_find}
use code_caller.Approvals.Decisions.{decide_refused, decide_ok, decide_effect}
use code_caller.Crypto.{hash_api_key}
use code_caller.Api.Foreign.{foreign_task, foreign_approval, IsSameElsewhere, approvals_same}

module _ ⦃pf : Platform⦄ where
  module _ (user_id : ℕ) where
    abbrev pub Keeps : {A : Type 0} → Action A → Type 0
    Keeps m = (h : Hub) (i : ℕ) → IsSameElsewhere (some user_id) h (m h).1 i

    submit_tasks :
        (dto : CreateTask) (h : Hub) (i : ℕ)
        → foreign_task (some user_id) i (submit user_id dto h).1 ≡ foreign_task (some user_id) i h
    unfolding submit foreign_task task_find_with_owner
    submit_tasks dto h i = ground (
      arith,
      pf.tasks.find-create (new_task dto h.clock) i h.tasks,
      pf.tasks.find-next_id h.tasks,
    )

    pub submit-Keeps : (dto : CreateTask) → Keeps (submit user_id dto)
    unfolding submit
    submit-Keeps dto h i = (
      ground arith,
      submit_tasks dto h i,
      approvals_same (some user_id) h (submit user_id dto h).1 i ground arith (submit_tasks dto h),
    )

    cancel_tasks :
        (j : ℕ) (h : Hub) (i : ℕ)
        → foreign_task (some user_id) i (cancel user_id j h).1 ≡ foreign_task (some user_id) i h
    unfolding cancel foreign_task task_find_with_owner
    cancel_tasks j h i = ground (
      arith,
      pf.tasks.find-update j (stamped h.clock (λ t. record t { status = TaskStatus.cancelled })) i
          h.tasks,
    )

    pub cancel-Keeps : (j : ℕ) → Keeps (cancel user_id j)
    unfolding cancel
    cancel-Keeps j h i = (
      ground arith,
      cancel_tasks j h i,
      approvals_same (some user_id) h (cancel user_id j h).1 i ground arith (cancel_tasks j h),
    )

    create_tasks :
        (dto : CreateServer) (h : Hub) (i : ℕ)
        → foreign_task (some user_id) i (Servers.create user_id dto h).1
          ≡ foreign_task (some user_id) i h
    unfolding Servers.create Servers.server_create foreign_task task_find_with_owner
    create_tasks dto h i = elim (Option-cases (pf.tasks.find_unique i h.tasks)) [
      | inl is ↦ ground (arith, is)
      | inr (t, is) ↦ ground (
        arith,
        is,
        pf.servers.find-create
            (new_server user_id dto.name dto.os_type dto.tailscale_ip
              (hash_api_key (pf.random_hex 32 h.draws)) h.clock)
            t.server_id h.servers,
        pf.servers.find-next_id h.servers,
      )
    ]

    pub create-Keeps : (dto : CreateServer) → Keeps (Servers.create user_id dto)
    unfolding Servers.create Servers.server_create
    create-Keeps dto h i = (
      ground (
        arith,
        pf.servers.find-create
            (new_server user_id dto.name dto.os_type dto.tailscale_ip
              (hash_api_key (pf.random_hex 32 h.draws)) h.clock)
            i h.servers,
        pf.servers.find-next_id h.servers,
      ),
      create_tasks dto h i,
      approvals_same (some user_id) h (Servers.create user_id dto h).1 i ground arith
          (create_tasks dto h),
    )

    decide_request_tasks :
        (j : ℕ) (approved : Bool) (h : Hub) (i : ℕ)
        → foreign_task (some user_id) i (RegistrationDecisions.decide user_id j approved h).1
          ≡ foreign_task (some user_id) i h
    unfolding RegistrationDecisions.decide foreign_task task_find_with_owner
    decide_request_tasks j approved h i =
        elim (Option-cases (pf.registrations.find_unique j h.registrations)) [
          | inl is ↦ ground (arith, is)
          | inr (r, is) ↦ elim (Option-cases (pf.tasks.find_unique i h.tasks)) [
            | inl none_there ↦ ground (arith, is, none_there)
            | inr (t, there) ↦ ground (
              arith,
              is,
              there,
              pf.servers.find-create
                  (new_server user_id r.name r.os_type r.tailscale_ip
                    (hash_api_key (pf.random_hex 32 h.draws)) h.clock)
                  t.server_id h.servers,
              pf.servers.find-next_id h.servers,
            )
          ]
        ]

    pub decide_request-Keeps :
        (j : ℕ) (approved : Bool) → Keeps (RegistrationDecisions.decide user_id j approved)
    unfolding RegistrationDecisions.decide
    decide_request-Keeps j approved h i = (
      elim (Option-cases (pf.registrations.find_unique j h.registrations)) [
        | inl is ↦ ground (arith, is)
        | inr (r, is) ↦ ground (
          arith,
          is,
          pf.servers.find-create
              (new_server user_id r.name r.os_type r.tailscale_ip
                (hash_api_key (pf.random_hex 32 h.draws)) h.clock)
              i h.servers,
          pf.servers.find-next_id h.servers,
        )
      ],
      decide_request_tasks j approved h i,
      approvals_same (some user_id) h (RegistrationDecisions.decide user_id j approved h).1 i ground
          arith (decide_request_tasks j approved h),
    )

    decide_servers :
        (j : ℕ) (dto : DecideApproval) (h : Hub)
        → (Approvals.decide user_id j dto h).1.servers ≡ h.servers
    unfolding Approvals.decide
    decide_servers j dto h = ground arith

    decide_tasks :
        (j : ℕ) (dto : DecideApproval) (h : Hub) (i : ℕ)
        → foreign_task (some user_id) i (Approvals.decide user_id j dto h).1
          ≡ foreign_task (some user_id) i h
    unfolding foreign_task task_find_with_owner approval_find
    decide_tasks j dto h i = elim (Result-cases (Approvals.decide user_id j dto h).0) [
      | inr (e, is) ↦ ap (foreign_task (some user_id) i) (decide_refused user_id j dto h is)
      | inl (r, is) ↦
          let (a, t, found, waits) = decide_ok user_id j dto h is in
          let (_, _, tasks, _) = decide_effect user_id j dto h found waits in
          ground (arith, found, tasks i, decide_servers j dto h)
    ]

    found_is_own :
        (j : ℕ) (h : Hub) {a : Approval} {t : Task}
        → approval_find j h ≡ some (a, t, user_id)
        → (pf.approvals.find_unique j h.approvals ≡ some a)
          × (foreign_task (some user_id) a.task_id h ≡ none)
    unfolding approval_find foreign_task
    found_is_own j h found = (ground arith, ground arith)

    decide_approvals :
        (j : ℕ) (dto : DecideApproval) (h : Hub) (i : ℕ)
        → foreign_approval (some user_id) i (Approvals.decide user_id j dto h).1
          ≡ foreign_approval (some user_id) i h
    unfolding foreign_approval
    decide_approvals j dto h i = elim (Result-cases (Approvals.decide user_id j dto h).0) [
      | inr (e, is) ↦ ap (foreign_approval (some user_id) i) (decide_refused user_id j dto h is)
      | inl (r, is) ↦
          let (a, t, found, waits) = decide_ok user_id j dto h is in
          let (_, approvals, _, _) = decide_effect user_id j dto h found waits in
          let (own, owned) = found_is_own j h found in
          elim (Option-cases (pf.approvals.find_unique i h.approvals)) [
            | inl none_there ↦ ground (arith, none_there, approvals i, own)
            | inr (b, there) ↦ ground (
              arith,
              there,
              approvals i,
              own,
              owned,
              decide_tasks j dto h a.task_id,
              decide_tasks j dto h b.task_id,
            )
          ]
    ]

    pub decide-Keeps : (j : ℕ) (dto : DecideApproval) → Keeps (Approvals.decide user_id j dto)
    decide-Keeps j dto h i =
        (ground (arith, decide_servers j dto h), decide_tasks j dto h i, decide_approvals j dto h i)

    remove_tasks :
        (j : ℕ) (h : Hub) (i : ℕ)
        → foreign_task (some user_id) i (Servers.remove user_id j h).1
          ≡ foreign_task (some user_id) i h
    unfolding Servers.remove server_delete foreign_task task_find_with_owner
    remove_tasks j h i = elim (Option-cases (pf.tasks.find_unique i h.tasks)) [
      | inl is ↦ ground (arith, is, pf.tasks.find-delete_many (λ _ t. t.server_id == j) i h.tasks)
      | inr (t, is) ↦ ground (
        arith,
        is,
        pf.servers.find-delete_many (λ k _. k == j) t.server_id h.servers,
        pf.tasks.find-delete_many (λ _ t. t.server_id == j) i h.tasks,
      )
    ]

    pub remove-Keeps : (j : ℕ) → Keeps (Servers.remove user_id j)
    unfolding Servers.remove server_delete foreign_approval foreign_task task_find_with_owner
    remove-Keeps j h i = (
      ground (arith, pf.servers.find-delete_many (λ k _. k == j) i h.servers),
      remove_tasks j h i,
      elim (Option-cases (pf.approvals.find_unique i h.approvals)) [
        | inl is ↦ ground (
          arith,
          is,
          pf.approvals.find-delete_many
              (λ _ a. task_is_of j (pf.tasks.find_unique a.task_id h.tasks)) i h.approvals,
        )
        | inr (a, is) ↦ ground (
          arith,
          is,
          remove_tasks j h a.task_id,
          pf.approvals.find-delete_many
              (λ _ a. task_is_of j (pf.tasks.find_unique a.task_id h.tasks)) i h.approvals,
        )
      ],
    )
