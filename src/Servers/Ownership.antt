-- ===== src/Servers/Ownership.antt =====
-- Who reaches a server, and what goes with it (hub-api/src/servers/servers.service.ts).
use code_caller.Prelude.{ℕ, ◌≡◌, ◌≢◌, Bool, ◌||◌, Option, none, some, arith, ◌==◌, if◌then◌else◌}
use code_caller.Schema.{Server}
use code_caller.Platform.{Platform}
use code_caller.Hub.{Hub, Error, ErrorKind, ok, err}
use code_caller.Servers.{find_one_for_owner, get_health, remove, task_is_of}
use code_caller.Tasks.{CreateTask, submit}

module _ ⦃pf : Platform⦄ where
  abbrev pub no_access : Error
  no_access = record { kind = ErrorKind.forbidden; message = "해당 서버에 접근할 권한이 없습니다." }

module _ ⦃pf : Platform⦄ (user_id server_id : ℕ) (h : Hub) {s : Server}
    (there : pf.servers.find_unique server_id h.servers ≡ some s)
    (other : s.owner_id ≢ user_id) where
  -- A user who is not the owner of a server that exists is refused as forbidden when reading it,
  -- asking for its health, removing it or submitting a task to it, and nothing changes.
  pub not_the_owner :
      (dto : CreateTask)
      → dto.server_id ≡ server_id
      → (find_one_for_owner user_id server_id h ≡ (err no_access, h))
        × (get_health user_id server_id h ≡ (err no_access, h))
        × (remove user_id server_id h ≡ (err no_access, h))
        × (submit user_id dto h ≡ (err no_access, h))
  unfolding find_one_for_owner get_health remove submit
  not_the_owner dto at = (ground arith, ground arith, ground arith, ground arith)

-- The row at an id, if it is not to be dropped.
abbrev pub unless : {Row : Type 0} → (Row → Bool) → Option Row → Option Row
unless p none = none
unless p (some r) = if p r then none else some r

module _ ⦃pf : Platform⦄ (user_id server_id : ℕ) (h : Hub) {s : Server}
    (there : pf.servers.find_unique server_id h.servers ≡ some s)
    (owned : s.owner_id ≡ user_id) where
  -- The removal of a server by its owner takes away its row and exactly those of its profiles, of
  -- its tasks, of the attempts at it or of its tasks, and of the approvals of its tasks; every
  -- other row of these tables stays as it is.
  pub remove_effect :
      (i : ℕ)
      → let (r, h') = remove user_id server_id h in
        let of_its_task =
          λ (task_id : ℕ). task_is_of server_id (pf.tasks.find_unique task_id h.tasks) in
        (r ≡ ok tt)
        × (pf.servers.find_unique i h'.servers
            ≡ (if i == server_id then none else pf.servers.find_unique i h.servers))
        × (pf.profiles.find_unique i h'.profiles
            ≡ unless (λ p. p.server_id == server_id) (pf.profiles.find_unique i h.profiles))
        × (pf.tasks.find_unique i h'.tasks
            ≡ unless (λ t. t.server_id == server_id) (pf.tasks.find_unique i h.tasks))
        × (pf.attempts.find_unique i h'.attempts
            ≡ unless
                (λ a. a.server_id == server_id || of_its_task a.task_id)
                (pf.attempts.find_unique i h.attempts))
        × (pf.approvals.find_unique i h'.approvals
            ≡ unless (λ a. of_its_task a.task_id) (pf.approvals.find_unique i h.approvals))
  unfolding remove
  remove_effect i =
      let of_its_task =
        λ (task_id : ℕ). task_is_of server_id (pf.tasks.find_unique task_id h.tasks) in
      (
        ground arith,
        ground (arith, pf.servers.find-delete_many (λ j _. j == server_id) i h.servers),
        ground (arith, pf.profiles.find-delete_many (λ _ p. p.server_id == server_id) i h.profiles),
        ground (arith, pf.tasks.find-delete_many (λ _ t. t.server_id == server_id) i h.tasks),
        ground (
          arith,
          pf.attempts.find-delete_many (λ _ a. a.server_id == server_id || of_its_task a.task_id) i
              h.attempts,
        ),
        ground (arith, pf.approvals.find-delete_many (λ _ a. of_its_task a.task_id) i h.approvals),
      )
