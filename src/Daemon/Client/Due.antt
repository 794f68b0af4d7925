-- ===== src/Daemon/Client/Due.antt =====
-- How the results of a task that may still come, and those that are out, change with what the
-- runners of the daemon do (agent-daemon/src/client.js and runner.js).
use code_caller.Prelude.{
  ℕ, zero, suc, ◌+◌, ◌≤◌, ◌≡◌, refl, ap, ◌∙◌, inl, inr, Bool, true, false, ◌&&◌, not, Option, none,
  some, List, [], ◌∷◌, ◌++◌, ◌==◌, arith, Option-cases, one_if,
}
use code_caller.Events.{DaemonResultStatus}
use code_caller.Units.{Text, codes, take_last}
use code_caller.Daemon.Approvals.{detect}
use code_caller.Daemon.Failures.{detect_structured_failure, exited_well}
use code_caller.Daemon.State.{
  Runner, Message, Daemon, emit, get_elem?, lookup, assign, alter, drop_task, task_running,
  task_log, approval_request, task_result, exited, error,
}
use code_caller.Daemon.Runner.{
  start, started, finish_failed, on_data, decide, kill, killed, on_close, resumed, received,
  handled, asked, spawned, output_of, status_of, tail_limit, disposed,
}
use code_caller.Daemon.Client.{with_task, dispose_all}

abbrev pub is_result : ℕ → Message → Bool
is_result t (task_result u status failure output) = u == t
is_result t _ = false

-- The results of a task among some messages.
unfoldable pub results : ℕ → List Message → ℕ
results t [] = 0
results t (m ∷ l) = one_if (is_result t m) + results t l

abbrev pub is_pending : ℕ → Runner → Bool
is_pending t r = (r.task_id == t) && not r.exit_handled

-- The runners of a task that have not reported how it ended.
unfoldable pub pending : ℕ → List Runner → ℕ
pending t [] = 0
pending t (r ∷ l) = one_if (is_pending t r) + pending t l

-- What was emitted, whether it has been sent or waits for a connection.
abbrev pub emitted : Daemon → List Message
emitted d = d.wire ++ d.buffer

-- The results of a task that are out or may still come.
abbrev pub due : ℕ → Daemon → ℕ
due t d = results t d.wire + results t d.buffer + pending t d.objects

module _ (t : ℕ) where
  pub results-++ : (l k : List Message) → results t (l ++ k) ≡ results t l + results t k
  unfolding results
  results-++ [] k = omega arith
  results-++ (m ∷ l) k = omega (arith, results-++ l k)

  pub pending-++ : (l k : List Runner) → pending t (l ++ k) ≡ pending t l + pending t k
  unfolding pending
  pending-++ [] k = omega arith
  pending-++ (r ∷ l) k = omega (arith, pending-++ l k)

  pub emit-due : (m : Message) (d : Daemon) → due t (emit m d) ≡ one_if (is_result t m) + due t d
  unfolding emit results
  emit-due m d = ground (arith, results-++ d.wire (m ∷ []), results-++ d.buffer (m ∷ []))

  -- What keeps the task and the flag of every runner keeps their number.
  pub pending-alter :
      (f : Runner → Runner) (i : ℕ) (l : List Runner)
      → ((r : Runner) → is_pending t (f r) ≡ is_pending t r)
      → pending t (alter i f l) ≡ pending t l
  unfolding pending alter
  pending-alter f i [] k = refl
  pending-alter f zero (r ∷ l) k = ap (λ b. one_if b + pending t l) (k r)
  pending-alter f (suc i) (r ∷ l) k = omega (arith, pending-alter f i l k)

  pub pending-handled :
      (i : ℕ) (l : List Runner) (r : Runner)
      → get_elem? l i ≡ some r
      → one_if (is_pending t r) + pending t (alter i handled l) ≡ pending t l
  unfolding pending alter get_elem?
  pending-handled i [] r e = cc
  pending-handled zero (q ∷ l) r e = ground arith
  pending-handled (suc i) (q ∷ l) r e = omega (arith, pending-handled i l r e)

  pub assign-due :
      (f : Runner → Runner) (i : ℕ) (d : Daemon)
      → ((r : Runner) → is_pending t (f r) ≡ is_pending t r)
      → due t (assign i f d) ≡ due t d
  assign-due f i d k =
      ap (λ n. results t d.wire + results t d.buffer + n) (pending-alter f i d.objects k)

  pub finish_failed-due :
      (i : ℕ) (reason : Text) (d : Daemon) → due t (finish_failed i reason d) ≤ due t d
  unfolding finish_failed drop_task
  finish_failed-due i reason d = elim (Option-cases (get_elem? d.objects i)) [
    | inl gone ↦ ground arith
    | inr (r, e) ↦ ground (
      arith,
      pending-handled i d.objects r e,
      emit-due
          (task_result r.task_id DaemonResultStatus.failed
            (detect_structured_failure none none reason) (error reason))
          (assign i handled d),
    )
  ]

  pub on_close-due :
      (i : ℕ) (code : Option ℕ) (signal : Option Text) (d : Daemon)
      → due t (on_close i code signal d) ≤ due t d
  unfolding on_close drop_task
  on_close-due i code signal d = elim (Option-cases (get_elem? d.objects i)) [
    | inl gone ↦ ground arith
    | inr (r, e) ↦ ground (
      arith,
      pending-handled i d.objects r e,
      emit-due
          (task_result r.task_id (status_of (exited_well code signal))
            (detect_structured_failure code signal (output_of r)) (exited code signal r.last_chunk))
          (assign i handled d),
    )
  ]

  started-due :
      (i : ℕ) (failure : Option Text) (r : Runner) (d : Daemon)
      → due t (started i failure r d) ≤ due t d
  unfolding started
  started-due i (some message) r d = finish_failed-due i (codes "spawn failed: " ++ message) d
  started-due i none r d =
      let launched = assign i (λ r. record r { child = some spawned }) d in
      omega (
        arith,
        emit-due (task_running r.task_id) launched,
        assign-due (λ r. record r { child = some spawned }) i d (λ r. refl),
      )

  pub start-due : (i : ℕ) (failure : Option Text) (d : Daemon) → due t (start i failure d) ≤ due t d
  unfolding start
  start-due i failure d = elim (Option-cases (get_elem? d.objects i)) [
    | inl gone ↦ ground arith
    | inr (r, e) ↦ ground (arith, started-due i failure r d)
  ]

  pub on_data-due : (i : ℕ) (chunk : Text) (d : Daemon) → due t (on_data i chunk d) ≤ due t d
  unfolding on_data
  on_data-due i chunk d = elim (Option-cases (get_elem? d.objects i)) [
    | inl gone ↦ ground arith
    | inr (r, e) ↦
        let taken = assign i (received chunk) d in
        let logged = emit (task_log r.task_id chunk) taken in
        let log_due = emit-due (task_log r.task_id chunk) taken in
        let taken_due = assign-due (received chunk) i d (λ r. refl) in
        elim (Option-cases (detect (take_last tail_limit (r.tail ++ chunk)))) [
          | inl quiet ↦ ground (arith, log_due, taken_due)
          | inr (reason, hit) ↦ ground (
            arith,
            log_due,
            taken_due,
            emit-due (approval_request r.task_id reason) (assign i asked logged),
            assign-due asked i logged (λ r. refl),
          )
        ]
  ]

  pub decide-due : (i : ℕ) (approved : Bool) (d : Daemon) → due t (decide i approved d) ≤ due t d
  unfolding decide kill
  decide-due i false d = omega (arith, assign-due killed i d (λ r. refl))
  decide-due i true d = elim (Option-cases (get_elem? d.objects i)) [
    | inl gone ↦ ground arith
    | inr (r, e) ↦ ground (arith, assign-due resumed i d (λ r. refl))
  ]

  pub dispose_all-pending :
      (l : List (ℕ × ℕ)) (objects : List Runner)
      → pending t (dispose_all l objects) ≡ pending t objects
  unfolding dispose_all
  dispose_all-pending [] objects = refl
  dispose_all-pending ((u, i) ∷ l) objects =
      dispose_all-pending l (alter i disposed objects)
      ∙ pending-alter disposed i objects (λ r. refl)

  pub with_task-due :
      (u : Option ℕ) (f : ℕ → Daemon → Daemon) (d : Daemon)
      → ((i : ℕ) → due t (f i d) ≤ due t d)
      → due t (with_task u f d) ≤ due t d
  with_task-due none f d k = omega arith
  with_task-due (some u) f d k = elim (Option-cases (lookup u d.runners)) [
    | inl unknown ↦ ground arith
    | inr (i, e) ↦ ground (arith, k i)
  ]
