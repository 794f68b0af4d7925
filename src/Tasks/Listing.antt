-- ===== src/Tasks/Listing.antt =====
-- Whose tasks a user sees (hub-api/src/tasks/tasks.service.ts, `findAllForOwner` and `findOneForOwner`).
use code_caller.Prelude.{ℕ, ◌≡◌, ◌↔◌, refl, true, some, List, arith, leb, In, ==_refl, ap}
use code_caller.Schema.{Task}
use code_caller.Platform.{Platform}
use code_caller.Hub.{Hub, Result, ok}
use code_caller.Prisma.{task_find_with_owner}
use code_caller.Tasks.{find_all_for_owner, find_one_for_owner_task, is_owned_by}

module _ ⦃pf : Platform⦄ (owner_id : ℕ) (h : Hub) where
  owned_iff :
      (i : ℕ) (t : Task)
      → ((pf.tasks.find_unique i h.tasks ≡ some t) × (is_owned_by owner_id h i t ≡ true))
        ↔ (task_find_with_owner i h ≡ some (t, owner_id))
  unfolding task_find_with_owner
  owned_iff i t =
      (λ m. ground arith, λ e. (ground (arith, ==_refl owner_id), ground (arith, ==_refl owner_id)))

  detail_iff :
      (i : ℕ) (t : Task)
      → (find_one_for_owner_task owner_id i h ≡ (ok (i, t), h))
        ↔ (task_find_with_owner i h ≡ some (t, owner_id))
  unfolding find_one_for_owner_task
  detail_iff i t = (
    λ e. let q = ap (λ (x : Result (ℕ × Task) × Hub). x.0) e in ground arith,
    λ e. ground (arith, ==_refl owner_id),
  )

  -- A user's list of tasks holds exactly those tasks that the user is shown one by one, with the
  -- same rows; listing changes nothing.
  pub listed_iff_shown :
      (l : List (ℕ × Task)) × (find_all_for_owner owner_id h ≡ (ok l, h))
      × ((i : ℕ) (t : Task) → In (i, t) l ↔ (find_one_for_owner_task owner_id i h ≡ (ok (i, t), h)))
  unfolding find_all_for_owner
  listed_iff_shown = (
    pf.tasks.find_many (λ a b. leb b.1.created_at a.1.created_at) (is_owned_by owner_id h) h.tasks,
    refl,
    λ i t. (
      λ m. (detail_iff i t).1 (
          (owned_iff i t).0 (
            pf.tasks.find_many_sound (λ a b. leb b.1.created_at a.1.created_at)
              (is_owned_by owner_id h) h.tasks i t m)),
      λ e.
          let (there, owned) = (owned_iff i t).1 ((detail_iff i t).0 e) in
          pf.tasks.find_many_complete (λ a b. leb b.1.created_at a.1.created_at)
            (is_owned_by owner_id h) h.tasks i t there owned,
    ),
  )
