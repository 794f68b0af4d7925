-- ===== src/Daemon/Client/Single.antt =====
-- That no task has two runners at work (agent-daemon/src/client.js and runner.js).
use code_caller.Prelude.{
  ℕ, ◌≤◌, ◌≡◌, refl, ap, inl, inr, Bool, true, false, ◌||◌, Option, none, some, is_some, List, [],
  ◌∷◌, ◌++◌, ◌==◌, arith, length, Option-cases, Bool-cases, one_if,
}
use code_caller.Events.{DaemonResultStatus}
use code_caller.Units.{Text, codes, take_last}
use code_caller.Daemon.Approvals.{detect}
use code_caller.Daemon.Failures.{detect_structured_failure, exited_well}
use code_caller.Daemon.State.{
  Config, Input, Runner, Message, heartbeat, Daemon, emit, get_elem?, lookup, without, assign,
  drop_task, task_running, task_log, approval_request, task_result, exited, error,
}
use code_caller.Daemon.Runner.{
  start, started, finish_failed, on_data, decide, kill, killed, on_close, on_error, resumed,
  received, handled, asked, spawned, tail_limit, status_of, output_of,
}
use code_caller.Daemon.Client.{
  Event, socket_connect, socket_disconnect, socket_error, submit, cancel, decision, heartbeat_due,
  child_data, child_error, child_exit, child_close, stop_signal, on_event, step, run, initial,
  on_task_submit, on_task_cancel, on_approval_decision, with_runner, with_task, flush_buffer,
  shutdown, exits, new_runner,
}
use code_caller.Daemon.Client.Due.{pending, is_pending, pending-alter, pending-handled, pending-++}

module _ (t : ℕ) where
  -- The runners of the task that are at work are at most the one that the map names.
  abbrev pub IsSingle : Daemon → Type 0
  IsSingle d = pending t d.objects ≤ one_if (is_some (lookup t d.runners))

  lookup-++ :
      (u i : ℕ) (l : List (ℕ × ℕ))
      → is_some (lookup t (l ++ (u, i) ∷ [])) ≡ (is_some (lookup t l) || u == t)
  unfolding lookup
  lookup-++ u i [] = ground arith
  lookup-++ u i ((v, j) ∷ l) = ground (arith, lookup-++ u i l)

  lookup-without :
      (u : ℕ) (l : List (ℕ × ℕ)) → (u == t) ≡ false → lookup t (without u l) ≡ lookup t l
  unfolding lookup without
  lookup-without u [] other = refl
  lookup-without u ((v, j) ∷ l) other = ground (arith, lookup-without u l other)

  emit-IsSingle : (m : Message) (d : Daemon) → IsSingle d → IsSingle (emit m d)
  unfolding emit
  emit-IsSingle m d h = ground arith

  assign-IsSingle :
      (f : Runner → Runner) (i : ℕ) (d : Daemon)
      → ((r : Runner) → is_pending t (f r) ≡ is_pending t r)
      → IsSingle d
      → IsSingle (assign i f d)
  assign-IsSingle f i d k h = omega (arith, pending-alter t f i d.objects k)

  -- A runner that reports its end leaves the map.
  ended-IsSingle :
      (i : ℕ) (r : Runner) (d : Daemon)
      → get_elem? d.objects i ≡ some r
      → r.exit_handled ≡ false
      → IsSingle d
      → IsSingle (drop_task r.task_id (assign i handled d))
  unfolding drop_task
  ended-IsSingle i r d e works h = elim (Bool-cases (r.task_id == t)) [
    | inl same ↦ ground (arith, same, works, pending-handled t i d.objects r e)
    | inr other ↦
        ground (arith, pending-handled t i d.objects r e, lookup-without r.task_id d.runners other)
  ]

  emitted-IsSingle :
      (i : ℕ) (r : Runner) (m : Message) (d : Daemon)
      → get_elem? d.objects i ≡ some r
      → r.exit_handled ≡ false
      → IsSingle d
      → IsSingle (drop_task r.task_id (emit m (assign i handled d)))
  unfolding drop_task emit
  emitted-IsSingle i r m d e works h = ground (arith, ended-IsSingle i r d e works h)

  finish_failed-IsSingle :
      (i : ℕ) (reason : Text) (d : Daemon) → IsSingle d → IsSingle (finish_failed i reason d)
  unfolding finish_failed
  finish_failed-IsSingle i reason d h = elim (Option-cases (get_elem? d.objects i)) [
    | inl gone ↦ ground (arith, gone)
    | inr (r, e) ↦ elim (Bool-cases r.exit_handled) [
      | inl done ↦ ground (arith, e, done)
      | inr works ↦ ground (
        arith,
        e,
        works,
        emitted-IsSingle i r
            (task_result r.task_id DaemonResultStatus.failed
              (detect_structured_failure none none reason) (error reason))
            d e works h,
      )
    ]
  ]

  on_close-IsSingle :
      (i : ℕ) (code : Option ℕ) (signal : Option Text) (d : Daemon)
      → IsSingle d
      → IsSingle (on_close i code signal d)
  unfolding on_close
  on_close-IsSingle i code signal d h = elim (Option-cases (get_elem? d.objects i)) [
    | inl gone ↦ ground (arith, gone)
    | inr (r, e) ↦ elim (Bool-cases r.exit_handled) [
      | inl done ↦ ground (arith, e, done)
      | inr works ↦ ground (
        arith,
        e,
        works,
        ended-IsSingle i r d e works h,
        emitted-IsSingle i r
            (task_result r.task_id (status_of (exited_well code signal))
              (detect_structured_failure code signal (output_of r))
              (exited code signal r.last_chunk))
            d e works h,
      )
    ]
  ]

  start-IsSingle :
      (i : ℕ) (failure : Option Text) (d : Daemon) → IsSingle d → IsSingle (start i failure d)
  unfolding start started
  start-IsSingle i failure d h = elim (Option-cases (get_elem? d.objects i)) [
    | inl gone ↦ ground (arith, gone)
    | inr (r, e) ↦ elim (Option-cases failure) [
      | inl works ↦ ground (
        arith,
        emit-IsSingle (task_running r.task_id) (assign i (λ r. record r { child = some spawned }) d)
            (assign-IsSingle (λ r. record r { child = some spawned }) i d (λ r. refl) h),
      )
      | inr (message, fails) ↦
          ground (arith, finish_failed-IsSingle i (codes "spawn failed: " ++ message) d h)
    ]
  ]

  on_data-IsSingle : (i : ℕ) (chunk : Text) (d : Daemon) → IsSingle d → IsSingle (on_data i chunk d)
  unfolding on_data
  on_data-IsSingle i chunk d h = elim (Option-cases (get_elem? d.objects i)) [
    | inl gone ↦ ground arith
    | inr (r, e) ↦
        let taken = assign i (received chunk) d in
        let logged = emit (task_log r.task_id chunk) taken in
        let log_single =
          emit-IsSingle (task_log r.task_id chunk) taken
            (assign-IsSingle (received chunk) i d (λ r. refl) h) in
        elim (Option-cases (detect (take_last tail_limit (r.tail ++ chunk)))) [
          | inl quiet ↦ ground (arith, log_single)
          | inr (reason, hit) ↦ ground (
            arith,
            log_single,
            emit-IsSingle (approval_request r.task_id reason) (assign i asked logged)
                (assign-IsSingle asked i logged (λ r. refl) log_single),
          )
        ]
  ]

  decide-IsSingle :
      (i : ℕ) (approved : Bool) (d : Daemon) → IsSingle d → IsSingle (decide i approved d)
  unfolding decide kill
  decide-IsSingle i false d h = assign-IsSingle killed i d (λ r. refl) h
  decide-IsSingle i true d h = elim (Option-cases (get_elem? d.objects i)) [
    | inl gone ↦ ground arith
    | inr (r, e) ↦ ground (arith, assign-IsSingle resumed i d (λ r. refl) h)
  ]

  with_task-IsSingle :
      (u : Option ℕ) (f : ℕ → Daemon → Daemon) (d : Daemon)
      → IsSingle d
      → ((i : ℕ) → IsSingle (f i d))
      → IsSingle (with_task u f d)
  with_task-IsSingle none f d h k = h
  with_task-IsSingle (some u) f d h k = elim (Option-cases (lookup u d.runners)) [
    | inl unknown ↦ ground arith
    | inr (i, e) ↦ ground (arith, k i)
  ]

  with_runner-IsSingle :
      (u : ℕ) (input : Input) (d : Daemon)
      → lookup u d.runners ≡ none
      → IsSingle d
      → IsSingle (with_runner u input d)
  unfolding pending
  with_runner-IsSingle u input d unknown h = elim (Bool-cases (u == t)) [
    | inl same ↦
        let equal : u ≡ t = ground (arith, same) in
        ground (
          arith,
          same,
          h,
          ap (λ v. lookup v d.runners) equal,
          unknown,
          pending-++ t d.objects (new_runner u input ∷ []),
          lookup-++ u (length d.objects) d.runners,
        )
    | inr other ↦ ground (
      arith,
      other,
      h,
      pending-++ t d.objects (new_runner u input ∷ []),
      lookup-++ u (length d.objects) d.runners,
    )
  ]

  submit-IsSingle :
      (u : ℕ) (input : Input) (failure : Option Text) (d : Daemon)
      → IsSingle d
      → IsSingle (on_task_submit (some u) input failure d)
  unfolding on_task_submit
  submit-IsSingle u input failure d h = elim (Option-cases (lookup u d.runners)) [
    | inl unknown ↦ ground (
      arith,
      unknown,
      start-IsSingle (length d.objects) failure (with_runner u input d)
          (with_runner-IsSingle u input d unknown h),
    )
    | inr (i, e) ↦ ground (arith, e)
  ]

  -- The daemon that ends drops its runners, and does nothing more.
  abbrev pub HasEndedOrSingle : Daemon → Type 0
  HasEndedOrSingle d = d.exit_status ≡ none → IsSingle d

  on_event-IsSingle : (e : Event) (d : Daemon) → IsSingle d → HasEndedOrSingle (on_event e d)
  unfolding on_event flush_buffer shutdown on_task_submit on_task_cancel on_approval_decision
      on_error kill
  on_event-IsSingle (submit (some u) input failure) d h runs = submit-IsSingle u input failure d h
  on_event-IsSingle (submit none input failure) d h runs = h
  on_event-IsSingle (cancel u) d h runs =
      with_task-IsSingle u kill d h (λ i. assign-IsSingle killed i d (λ r. refl) h)
  on_event-IsSingle (decision u approved) d h runs =
      with_task-IsSingle u (λ i. decide i approved) d h (λ i. decide-IsSingle i approved d h)
  on_event-IsSingle heartbeat_due d h runs = emit-IsSingle heartbeat d h
  on_event-IsSingle (child_data i chunk) d h runs = on_data-IsSingle i chunk d h
  on_event-IsSingle (child_error i message) d h runs =
      finish_failed-IsSingle i (codes "child process error: " ++ message) d h
  on_event-IsSingle (child_exit i code) d h runs = assign-IsSingle (exits code) i d (λ r. refl) h
  on_event-IsSingle (child_close i code signal) d h runs = on_close-IsSingle i code signal d h
  on_event-IsSingle socket_connect d h runs = h
  on_event-IsSingle (socket_disconnect true) d h runs = h
  on_event-IsSingle (socket_disconnect false) d h runs = h
  on_event-IsSingle socket_error d h runs = h
  on_event-IsSingle stop_signal d h runs = absurd (ground (arith, runs))

  run-keeps-IsSingle :
      (l : List Event) (d : Daemon) → HasEndedOrSingle d → HasEndedOrSingle (run l d)
  unfolding run step
  run-keeps-IsSingle [] d h = h
  run-keeps-IsSingle (e ∷ l) d h = elim (Option-cases d.exit_status) [
    | inl runs ↦
        ground (arith, runs, run-keeps-IsSingle l (on_event e d) (on_event-IsSingle e d (h runs)))
    | inr (status, ended) ↦ ground (arith, ended, run-keeps-IsSingle l d h)
  ]

  -- In any run.
  pub run-IsSingle :
      (config : Config) (l : List Event)
      → (run l (initial config)).exit_status ≡ none
      → pending t (run l (initial config)).objects
        ≤ one_if (is_some (lookup t (run l (initial config)).runners))
  unfolding pending
  run-IsSingle config l = run-keeps-IsSingle l (initial config) (λ runs. ground arith)
