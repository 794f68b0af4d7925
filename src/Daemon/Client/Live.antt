-- ===== src/Daemon/Client/Live.antt =====
-- The results of a task that were sent or that its runners may still report
-- (agent-daemon/src/client.js and runner.js).
use code_caller.Prelude.{
  ℕ, zero, suc, ◌+◌, ◌≤◌, ◌≡◌, inl, inr, Bool, true, false, not, ◌&&◌, ◌||◌, Option, none, some,
  List, [], ◌∷◌, ◌++◌, ◌==◌, arith, length, Option-cases, one_if,
}
use code_caller.Events.{DaemonResultStatus}
use code_caller.Units.{Text, codes, take_last}
use code_caller.Daemon.Approvals.{detect}
use code_caller.Daemon.Failures.{detect_structured_failure, exited_well}
use code_caller.Daemon.State.{
  Input, Runner, Message, heartbeat, Daemon, emit, get_elem?, lookup, alter, assign, drop_task,
  task_running, task_log, approval_request, task_result, exited, error,
}
use code_caller.Daemon.Runner.{
  start, started, finish_failed, on_data, decide, kill, killed, on_close, resumed, received,
  handled, asked, spawned, tail_limit, status_of, output_of, disposed,
}
use code_caller.Daemon.Client.{
  Event, socket_connect, socket_disconnect, socket_error, submit, cancel, decision, heartbeat_due,
  child_data, child_error, child_exit, child_close, stop_signal, on_event, step, run,
  on_task_submit, on_task_cancel, on_approval_decision, with_runner, with_task, flush_buffer,
  shutdown, exits, new_runner, dispose_all,
}
use code_caller.Daemon.Client.Due.{is_result, results, results-++, pending}
use code_caller.Daemon.Client.Agreement.{is_of, get_elem?-length}

-- The events that do not start the task anew, and with which no child reports an error of its own.
abbrev pub is_quiet : ℕ → Event → Bool
is_quiet t (submit (some u) input failure) = not (u == t)
is_quiet t (child_error i message) = false
is_quiet t _ = true

unfoldable pub all_quiet : ℕ → List Event → Bool
all_quiet t [] = true
all_quiet t (e ∷ l) = is_quiet t e && all_quiet t l

abbrev is_active : ℕ → Runner → Bool
is_active t r = (r.task_id == t) && not (r.exit_handled || r.killed_by_hub)

-- The runners of a task that may report a result when their child closes.
unfoldable pub active : ℕ → List Runner → ℕ
active t [] = 0
active t (r ∷ l) = one_if (is_active t r) + active t l

module _ (t : ℕ) where
  abbrev pub live : Daemon → ℕ
  live d = results t d.wire + results t d.buffer + active t d.objects

  active-++ : (l k : List Runner) → active t (l ++ k) ≡ active t l + active t k
  unfolding active
  active-++ [] k = omega arith
  active-++ (r ∷ l) k = omega (arith, active-++ l k)

  active-alter :
      (f : Runner → Runner) (i : ℕ) (l : List Runner)
      → ((r : Runner) → one_if (is_active t (f r)) ≤ one_if (is_active t r))
      → active t (alter i f l) ≤ active t l
  unfolding active alter
  active-alter f i [] k = omega arith
  active-alter f zero (r ∷ l) k = omega (arith, k r)
  active-alter f (suc i) (r ∷ l) k = omega (arith, active-alter f i l k)

  active-handled :
      (i : ℕ) (l : List Runner) (r : Runner)
      → get_elem? l i ≡ some r
      → one_if (is_active t r) + active t (alter i handled l) ≡ active t l
  unfolding active alter get_elem?
  active-handled i [] r e = cc
  active-handled zero (q ∷ l) r e = ground arith
  active-handled (suc i) (q ∷ l) r e = omega (arith, active-handled i l r e)

  pub active-pending : (l : List Runner) → active t l ≤ pending t l
  unfolding active pending
  active-pending [] = omega arith
  active-pending (r ∷ l) = ground (arith, active-pending l)

  -- A runner at work that is killed reports nothing any more.
  pub active-killed :
      (i : ℕ) (l : List Runner)
      → is_of t (get_elem? l i) ≡ true
      → 1 + active t (alter i killed l) ≤ pending t l
  unfolding active pending alter get_elem?
  active-killed i [] e = cc
  active-killed zero (q ∷ l) e = ground (arith, e, active-pending l)
  active-killed (suc i) (q ∷ l) e = ground (arith, active-killed i l e)

  emit-live : (m : Message) (d : Daemon) → live (emit m d) ≡ one_if (is_result t m) + live d
  unfolding emit results
  emit-live m d = ground (arith, results-++ t d.wire (m ∷ []), results-++ t d.buffer (m ∷ []))

  assign-live :
      (f : Runner → Runner) (i : ℕ) (d : Daemon)
      → ((r : Runner) → one_if (is_active t (f r)) ≤ one_if (is_active t r))
      → live (assign i f d) ≤ live d
  assign-live f i d k = omega (arith, active-alter f i d.objects k)

  on_close-live :
      (i : ℕ) (code : Option ℕ) (signal : Option Text) (d : Daemon)
      → live (on_close i code signal d) ≤ live d
  unfolding on_close drop_task
  on_close-live i code signal d = elim (Option-cases (get_elem? d.objects i)) [
    | inl gone ↦ ground (arith, gone)
    | inr (r, e) ↦ ground (
      arith,
      e,
      active-handled i d.objects r e,
      emit-live
          (task_result r.task_id (status_of (exited_well code signal))
            (detect_structured_failure code signal (output_of r)) (exited code signal r.last_chunk))
          (assign i handled d),
    )
  ]

  on_data-live : (i : ℕ) (chunk : Text) (d : Daemon) → live (on_data i chunk d) ≤ live d
  unfolding on_data
  on_data-live i chunk d = elim (Option-cases (get_elem? d.objects i)) [
    | inl gone ↦ ground (arith, gone)
    | inr (r, e) ↦
        let taken = assign i (received chunk) d in
        let logged = emit (task_log r.task_id chunk) taken in
        let log_live = emit-live (task_log r.task_id chunk) taken in
        let taken_live = assign-live (received chunk) i d (λ r. ground arith) in
        elim (Option-cases (detect (take_last tail_limit (r.tail ++ chunk)))) [
          | inl quiet ↦ ground (arith, log_live, taken_live)
          | inr (reason, hit) ↦ ground (
            arith,
            log_live,
            taken_live,
            emit-live (approval_request r.task_id reason) (assign i asked logged),
            assign-live asked i logged (λ r. ground arith),
          )
        ]
  ]

  decide-live : (i : ℕ) (approved : Bool) (d : Daemon) → live (decide i approved d) ≤ live d
  unfolding decide kill
  decide-live i false d = assign-live killed i d (λ r. ground arith)
  decide-live i true d = elim (Option-cases (get_elem? d.objects i)) [
    | inl gone ↦ ground (arith, gone)
    | inr (r, e) ↦ ground (arith, assign-live resumed i d (λ r. ground arith))
  ]

  dispose_all-live :
      (l : List (ℕ × ℕ)) (objects : List Runner)
      → active t (dispose_all l objects) ≤ active t objects
  unfolding dispose_all
  dispose_all-live [] objects = omega arith
  dispose_all-live ((u, i) ∷ l) objects = omega (
    arith,
    dispose_all-live l (alter i disposed objects),
    active-alter disposed i objects (λ r. ground arith),
  )

  with_task-live :
      (u : Option ℕ) (f : ℕ → Daemon → Daemon) (d : Daemon)
      → ((i : ℕ) → live (f i d) ≤ live d)
      → live (with_task u f d) ≤ live d
  with_task-live none f d k = omega arith
  with_task-live (some u) f d k = elim (Option-cases (lookup u d.runners)) [
    | inl unknown ↦ ground arith
    | inr (i, e) ↦ ground (arith, k i)
  ]

  -- The start of a runner of another task.
  start-live :
      (i : ℕ) (failure : Option Text) (r : Runner) (d : Daemon)
      → get_elem? d.objects i ≡ some r
      → (r.task_id == t) ≡ false
      → live (start i failure d) ≤ live d
  unfolding start started finish_failed drop_task
  start-live i failure r d e other = elim (Option-cases failure) [
    | inl works ↦ ground (
      arith,
      e,
      works,
      emit-live (task_running r.task_id) (assign i (λ r. record r { child = some spawned }) d),
      assign-live (λ r. record r { child = some spawned }) i d (λ r. ground arith),
    )
    | inr (message, fails) ↦ ground (
      arith,
      e,
      fails,
      other,
      assign-live handled i d (λ r. ground arith),
      emit-live
          (task_result r.task_id DaemonResultStatus.failed
            (detect_structured_failure none none (codes "spawn failed: " ++ message))
            (error (codes "spawn failed: " ++ message)))
          (assign i handled d),
    )
  ]

  submit-live :
      (u : ℕ) (input : Input) (failure : Option Text) (d : Daemon)
      → (u == t) ≡ false
      → live (on_task_submit (some u) input failure d) ≤ live d
  unfolding on_task_submit active
  submit-live u input failure d other = elim (Option-cases (lookup u d.runners)) [
    | inl unknown ↦ ground (
      arith,
      unknown,
      other,
      start-live (length d.objects) failure (new_runner u input) (with_runner u input d)
          (get_elem?-length d.objects (new_runner u input)) other,
      active-++ d.objects (new_runner u input ∷ []),
    )
    | inr (i, e) ↦ ground (arith, e)
  ]

  on_event-live : (e : Event) (d : Daemon) → is_quiet t e ≡ true → live (on_event e d) ≤ live d
  unfolding on_event flush_buffer shutdown on_task_submit on_task_cancel on_approval_decision kill
      results
  on_event-live (submit (some u) input failure) d q =
      submit-live u input failure d (ground (arith, q))
  on_event-live (submit none input failure) d q = omega arith
  on_event-live (cancel u) d q =
      with_task-live u kill d (λ i. assign-live killed i d (λ r. ground arith))
  on_event-live (decision u approved) d q =
      with_task-live u (λ i. decide i approved) d (λ i. decide-live i approved d)
  on_event-live heartbeat_due d q = omega (arith, emit-live heartbeat d)
  on_event-live (child_data i chunk) d q = on_data-live i chunk d
  on_event-live (child_error i message) d q = absurd (ground (arith, q))
  on_event-live (child_exit i code) d q = assign-live (exits code) i d (λ r. ground arith)
  on_event-live (child_close i code signal) d q = on_close-live i code signal d
  on_event-live socket_connect d q = omega (arith, results-++ t d.wire d.buffer)
  on_event-live (socket_disconnect true) d q = omega arith
  on_event-live (socket_disconnect false) d q = omega arith
  on_event-live socket_error d q = omega arith
  on_event-live stop_signal d q = omega (arith, dispose_all-live d.runners d.objects)

  pub run-live : (l : List Event) (d : Daemon) → all_quiet t l ≡ true → live (run l d) ≤ live d
  unfolding run step all_quiet
  run-live [] d q = omega arith
  run-live (e ∷ l) d q = elim (Option-cases d.exit_status) [
    | inl runs ↦ ground (arith, runs, q, run-live l (on_event e d), on_event-live e d)
    | inr (status, ended) ↦ ground (arith, ended, q, run-live l d)
  ]
