-- ===== src/Api/Foreign.antt =====
-- What the hub shows of the servers, tasks and approvals of others (the controllers of
-- hub-api/src).
use code_caller.Prelude.{
  ℕ, ◌≡◌, inl, inr, Bool, false, arith, none, some, Option, Option-cases, ◌==◌, if◌then◌else◌,
}
use code_caller.Schema.{Task, Server, Approval}
use code_caller.Platform.{Platform}
use code_caller.Prisma.{task_find_with_owner}
use code_caller.Hub.{Hub}

abbrev pub is_owner : Option ℕ → ℕ → Bool
is_owner none owner = false
is_owner (some user_id) owner = user_id == owner

module _ ⦃pf : Platform⦄ where
  -- A row at an id, unless it is the user's, if there is a user.
  abbrev pub foreign_server : Option ℕ → ℕ → Hub → Option Server
  foreign_server user i h = elim (pf.servers.find_unique i h.servers) [
    | none ↦ none
    | some s ↦ if is_owner user s.owner_id then none else some s
  ]

  unfoldable pub foreign_task : Option ℕ → ℕ → Hub → Option Task
  foreign_task user i h = elim (task_find_with_owner i h) [
    | none ↦ none
    | some (t, owner) ↦ if is_owner user owner then none else some t
  ]

  unfoldable pub foreign_approval : Option ℕ → ℕ → Hub → Option Approval
  foreign_approval user i h = elim (pf.approvals.find_unique i h.approvals) [
    | none ↦ none
    | some a ↦ elim (foreign_task user a.task_id h) [ none ↦ none | some t ↦ some a ]
  ]

  -- Two hubs that show the same of what is not the user's.
  abbrev pub IsSameElsewhere : Option ℕ → Hub → Hub → ℕ → Type 0
  IsSameElsewhere user h h' i =
      (foreign_server user i h' ≡ foreign_server user i h)
      × (foreign_task user i h' ≡ foreign_task user i h)
      × (foreign_approval user i h' ≡ foreign_approval user i h)

  -- Where the approvals are as they were, those of others go with the tasks.
  pub approvals_same :
      (user : Option ℕ) (h h' : Hub) (i : ℕ)
      → h'.approvals ≡ h.approvals
      → ((j : ℕ) → foreign_task user j h' ≡ foreign_task user j h)
      → foreign_approval user i h' ≡ foreign_approval user i h
  unfolding foreign_approval
  approvals_same user h h' i same tasks =
      elim (Option-cases (pf.approvals.find_unique i h.approvals)) [
        | inl is ↦ ground (arith, same, is)
        | inr (a, is) ↦ ground (arith, same, is, tasks a.task_id)
      ]
