-- ===== src/Dispatch/FirstOnline.antt =====
-- To which candidate a task goes (the loop of `process` in
-- hub-api/src/tasks/tasks.processor.ts).
use mathlib.Core.Path.{subst}
use mathlib.Core.List.{append-nil, append_assoc}
use code_caller.Prelude.{
  ap, ℕ, ◌≡◌, refl, true, false, String, ◌<>◌, Option, none, some, List, [], ◌∷◌, ◌++◌, map, arith,
  ==_refl, if◌then◌else◌, Bool-cases, inl, inr,
}
use code_caller.Schema.{Task, TaskStatus, TaskAttempt, WorkerType}
use code_caller.Events.{task_submit}
use code_caller.Platform.{Platform}
use code_caller.Hub.{Hub, ErrorKind, Result, ok, err, to_server}
use code_caller.Prisma.{stamped}
use code_caller.Realtime.{is_server_online, not_connected}
use code_caller.Workers.{WorkerDispatchCandidate}
use code_caller.Dispatch.{
  try_candidate, try_candidates, give_up, new_attempt, failed_attempt, failure_line,
  exhausted_message, format_failover_log,
}

module _ ⦃pf : Platform⦄ where
  -- The first candidate whose daemon is connected.
  abbrev pub first_online : Hub → List WorkerDispatchCandidate → Option WorkerDispatchCandidate
  first_online h [] = none
  first_online h (c ∷ l) = if is_server_online c.server_id h then some c else first_online h l

  -- the row of a task that a candidate has taken
  abbrev pub taken : WorkerDispatchCandidate → ℕ → Task → Task
  taken c now = stamped now (λ t. record t { server_id = c.server_id; status = TaskStatus.running })

  try_candidate_online :
      (task_id : ℕ) (t : Task) (attempt : ℕ) (c : WorkerDispatchCandidate) (h : Hub)
      {a : TaskAttempt}
      → pf.tasks.find_unique task_id h.tasks ≡ some t
      → t.worker_type ≡ WorkerType.codex
      → pf.attempts.find_unique attempt h.attempts ≡ some a
      → is_server_online c.server_id h ≡ true
      → ((try_candidate task_id t attempt c h).0 ≡ ok tt)
        × ((try_candidate task_id t attempt c h).1.tasks
            ≡ pf.tasks.update task_id (taken c h.clock) h.tasks)
        × ((try_candidate task_id t attempt c h).1.sent
            ≡ to_server c.server_id (task_submit task_id t.input) ∷ h.sent)
  unfolding try_candidate
  try_candidate_online task_id t attempt c h found w there up = ground arith

  try_candidate_offline :
      (task_id : ℕ) (t : Task) (attempt : ℕ) (c : WorkerDispatchCandidate) (h : Hub)
      → pf.tasks.find_unique task_id h.tasks ≡ some t
      → t.worker_type ≡ WorkerType.codex
      → is_server_online c.server_id h ≡ false
      → try_candidate task_id t attempt c h ≡ (
        err (record { kind = ErrorKind.service_unavailable; message = not_connected c.server_id }),
        h,
      )
  unfolding try_candidate
  try_candidate_offline task_id t attempt c h found w down = ground arith

  -- What the loop leaves behind: the task with the candidate, whose daemon was sent it, or the
  -- failures in its log.
  abbrev pub Outcome :
      ℕ
      → Task
      → List String
      → Hub
      → Option WorkerDispatchCandidate
      → Result (Unit {0}) × Hub
      → Type 0
  Outcome task_id t failures h none (r, h') =
      (r ≡ err (record { kind = ErrorKind.plain; message = exhausted_message task_id failures }))
      × (h'.tasks
          ≡ pf.tasks.update task_id
              (stamped h.clock (λ u. record u { logs = t.logs <> format_failover_log failures }))
              h.tasks)
      × (h'.sent ≡ h.sent)
  Outcome task_id t failures h (some c) (r, h') =
      (r ≡ ok tt)
      × (h'.tasks ≡ pf.tasks.update task_id (taken c h.clock) h.tasks)
      × (h'.sent ≡ to_server c.server_id (task_submit task_id t.input) ∷ h.sent)

  -- The lines on the candidates, none of which is connected.
  abbrev pub offline_lines : List WorkerDispatchCandidate → List String
  offline_lines l = map (λ c. failure_line c (not_connected c.server_id)) l

  module _ (task_id : ℕ) (t : Task) (runs : t.worker_type ≡ WorkerType.codex) where
    give_up-Outcome :
        (failures : List String) (h : Hub)
        → pf.tasks.find_unique task_id h.tasks ≡ some t
        → Outcome task_id t failures h none (give_up task_id t failures h)
    unfolding give_up
    give_up-Outcome failures h found = (ground arith, ground arith, ground arith)

    -- The state after a candidate that is not connected.
    skipped : WorkerDispatchCandidate → Hub → Hub
    skipped c h = record h {
      attempts =
          pf.attempts.update (pf.attempts.next_id h.attempts)
            (failed_attempt (not_connected c.server_id) h.clock)
            (pf.attempts.create (new_attempt task_id c.server_id h.clock) h.attempts);
    }

    try_candidates_offline :
        (failures : List String) (c : WorkerDispatchCandidate) (l : List WorkerDispatchCandidate)
        (h : Hub)
        → pf.tasks.find_unique task_id h.tasks ≡ some t
        → is_server_online c.server_id h ≡ false
        → try_candidates task_id t failures (c ∷ l) h
          ≡ try_candidates task_id t
              (failures ++ failure_line c (not_connected c.server_id) ∷ [])
              l
              (skipped c h)
    unfolding try_candidates skipped
    try_candidates_offline failures c l h found down =
        let attempt = pf.attempts.next_id h.attempts in
        let fresh = new_attempt task_id c.server_id h.clock in
        let h₁ : Hub = record h { attempts = pf.attempts.create fresh h.attempts } in
        let failed =
          try_candidate_offline task_id t attempt c h₁ found runs
            (unfold is_server_online in down) in
        ground (arith, failed, pf.attempts.find-create fresh attempt h.attempts, ==_refl attempt)

    -- The failed attempt is all that the skipped candidate leaves.
    first_online-skipped :
        (c : WorkerDispatchCandidate) (l : List WorkerDispatchCandidate) (h : Hub)
        → first_online (skipped c h) l ≡ first_online h l
    unfolding skipped is_server_online
    first_online-skipped c [] h = refl
    first_online-skipped c (d ∷ l) h =
        ap (λ rest. if is_server_online d.server_id h then some d else rest)
          (first_online-skipped c l h)

    Outcome-skipped :
        (c : WorkerDispatchCandidate) (failures : List String) (h : Hub)
        (o : Option WorkerDispatchCandidate) (r : Result (Unit {0}) × Hub)
        → Outcome task_id t failures (skipped c h) o r
        → Outcome task_id t failures h o r
    unfolding skipped
    Outcome-skipped c failures h none r k = k
    Outcome-skipped c failures h (some d) r k = k

    try_candidates_online :
        (failures : List String) (c : WorkerDispatchCandidate) (l : List WorkerDispatchCandidate)
        (h : Hub)
        → pf.tasks.find_unique task_id h.tasks ≡ some t
        → is_server_online c.server_id h ≡ true
        → Outcome task_id t failures h (some c) (try_candidates task_id t failures (c ∷ l) h)
    unfolding try_candidates
    try_candidates_online failures c l h found up =
        let attempt = pf.attempts.next_id h.attempts in
        let fresh = new_attempt task_id c.server_id h.clock in
        let h₁ : Hub = record h { attempts = pf.attempts.create fresh h.attempts } in
        let there : pf.attempts.find_unique attempt h₁.attempts ≡ some fresh =
          ground (arith, pf.attempts.find-create fresh attempt h.attempts, ==_refl attempt) in
        let done =
          try_candidate_online task_id t attempt c h₁ found runs there
            (unfold is_server_online in up) in
        (ground (arith, done), ground (arith, done), ground (arith, done))

    -- Whatever failed before, the task goes to the first candidate whose daemon is connected.
    pub try_candidates-Outcome :
        (failures : List String) (l : List WorkerDispatchCandidate) (h : Hub)
        → pf.tasks.find_unique task_id h.tasks ≡ some t
        → Outcome task_id t
            (failures ++ offline_lines l)
            h
            (first_online h l)
            (try_candidates task_id t failures l h)
    try_candidates-Outcome failures [] h found =
        rw append-nil (unfold try_candidates in give_up-Outcome failures h found)
    try_candidates-Outcome failures (c ∷ l) h found =
        elim (Bool-cases (is_server_online c.server_id h)) [
          | inl up ↦ rw up (try_candidates_online failures c l h found up)
          | inr down ↦
              let line = failure_line c (not_connected c.server_id) in
              let r = try_candidates task_id t (failures ++ line ∷ []) l (skipped c h) in
              let ih =
                try_candidates-Outcome (failures ++ line ∷ []) l (skipped c h)
                  (unfold skipped in found) in
              let at_h = Outcome-skipped c _ h _ r (
                subst
                  (λ o.
                    Outcome task_id t ((failures ++ line ∷ []) ++ offline_lines l) (skipped c h) o
                      r)
                  (first_online-skipped c l h) ih) in
              rw (down, try_candidates_offline failures c l h found down)
                (subst (λ fs. Outcome task_id t fs h (first_online h l) r)
                  (append_assoc failures (line ∷ []) (offline_lines l)) at_h)
        ]
