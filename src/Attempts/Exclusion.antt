-- ===== src/Attempts/Exclusion.antt =====
-- Which servers a task is not sent to again (`retryExcludedServerIds` in
-- hub-api/src/tasks/tasks.service.ts and hub-api/src/tasks/tasks.processor.ts).
use code_caller.Prelude.{
  ℕ, ◌≡◌, ◌↔◌, refl, inl, inr, true, List, [], ◌∷◌, some, arith, ◌==◌, contains, In, head, tail,
  Bool-cases, ap,
}
use code_caller.Schema.{TaskAttempt}
use code_caller.Platform.{Platform}
use code_caller.Hub.{Hub}
use code_caller.Attempts.{distinct_ids, excluded_in, is_excluding}

distinct_ids-contains :
    (s : ℕ) (l : List (ℕ × TaskAttempt))
    → contains s (distinct_ids l) ≡ true
    → (e : ℕ × TaskAttempt) × In e l × (e.1.server_id ≡ s)
unfolding distinct_ids
distinct_ids-contains s [] h = cc
distinct_ids-contains s ((i, a) ∷ l) h = elim (Bool-cases (contains a.server_id (distinct_ids l))) [
  | inl seen ↦ let (e, m, q) = distinct_ids-contains s l (ground arith) in (e, tail m, q)
  | inr fresh ↦ elim (Bool-cases (s == a.server_id)) [
    | inl here ↦ ((i, a), head refl, ground arith)
    | inr further ↦ let (e, m, q) = distinct_ids-contains s l (ground arith) in (e, tail m, q)
  ]
]

contains-distinct_ids :
    (s : ℕ) (l : List (ℕ × TaskAttempt)) (e : ℕ × TaskAttempt)
    → In e l
    → e.1.server_id ≡ s
    → contains s (distinct_ids l) ≡ true
unfolding distinct_ids
contains-distinct_ids s [] e m q = elim m [ ]
contains-distinct_ids s ((i, a) ∷ l) e (head k) q =
    let r = ap (λ (x : ℕ × TaskAttempt). x.1.server_id) k in ground arith
contains-distinct_ids s ((i, a) ∷ l) e (tail m) q = ground (arith, contains-distinct_ids s l e m q)

module _ ⦃pf : Platform⦄ where
  -- A server is excluded from the dispatch of a task exactly if some attempt of the task at it
  -- has timed out, or has failed with the reason of a capacity failure.
  pub excluded_in_iff :
      (task_id s : ℕ) (h : Hub)
      → (contains s (excluded_in task_id h) ≡ true) ↔ (
          (i : ℕ) × (a : TaskAttempt) × (pf.attempts.find_unique i h.attempts ≡ some a)
          × (is_excluding task_id i a ≡ true)
          × (a.server_id ≡ s))
  unfolding excluded_in
  excluded_in_iff task_id s h = (
    λ c.
        let (e, m, q) = distinct_ids-contains s _ c in
        let (f, g) =
          pf.attempts.find_many_sound (λ _ _. true) (is_excluding task_id) h.attempts e.0 e.1 m in
        (e.0, e.1, f, g, q),
    λ w.
        contains-distinct_ids s _ (w.0, w.1)
          (pf.attempts.find_many_complete (λ _ _. true) (is_excluding task_id) h.attempts w.0 w.1
            w.2 w.3)
          w.4,
  )
