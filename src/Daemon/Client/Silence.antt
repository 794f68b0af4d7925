-- ===== src/Daemon/Client/Silence.antt =====
-- What comes after the hub has cancelled a task (agent-daemon/src/client.js and runner.js).
use code_caller.Prelude.{
  ℕ, ◌≤◌, ◌≡◌, refl, ap, inl, inr, true, some, is_some, List, [], ◌∷◌, ◌==◌, arith, Option-cases,
  Bool-cases, one_if,
}
use code_caller.Daemon.State.{Config, Runner, Daemon, get_elem?, lookup}
use code_caller.Daemon.Runner.{kill}
use code_caller.Daemon.Client.{Event, cancel, on_event, step, run, initial, on_task_cancel}
use code_caller.Daemon.Client.Due.{results, results-++, emitted, pending}
use code_caller.Daemon.Client.Agreement.{is_of, agrees}
use code_caller.Daemon.Client.Registry.{run-agrees}
use code_caller.Daemon.Client.Single.{run-IsSingle}
use code_caller.Daemon.Client.Live.{
  all_quiet, active, active-pending, active-killed, live, run-live,
}

module _ (t : ℕ) where
  -- The map's runner of a task is one that is at work.
  lookup-is_of :
      (objects : List Runner) (l : List (ℕ × ℕ)) (i : ℕ)
      → agrees objects l ≡ true
      → lookup t l ≡ some i
      → is_of t (get_elem? objects i) ≡ true
  unfolding agrees lookup
  lookup-is_of objects [] i h e = absurd (ground (arith, e))
  lookup-is_of objects ((u, j) ∷ l) i h e = elim (Bool-cases (u == t)) [
    | inl same ↦
        let equal : u ≡ t = ground (arith, same) in
        let index : j ≡ i = ground (arith, e, same) in
        ground (
          arith,
          h,
          ap (λ v. is_of v (get_elem? objects j)) equal,
          ap (λ k. is_of t (get_elem? objects k)) index,
        )
    | inr other ↦ ground (arith, h, e, other, lookup-is_of objects l i)
  ]

  cancel-active :
      (d : Daemon)
      → agrees d.objects d.runners ≡ true
      → pending t d.objects ≤ one_if (is_some (lookup t d.runners))
      → active t (on_task_cancel (some t) d).objects ≡ 0
  unfolding on_task_cancel kill
  cancel-active d h single = elim (Option-cases (lookup t d.runners)) [
    | inl unknown ↦ ground (arith, unknown, single, active-pending t d.objects)
    | inr (i, e) ↦
        ground
          (arith, e, single, active-killed t i d.objects (lookup-is_of d.objects d.runners i h e))
  ]

  cancel-sent :
      (d : Daemon)
      → ((on_task_cancel (some t) d).wire ≡ d.wire)
        × ((on_task_cancel (some t) d).buffer ≡ d.buffer)
  unfolding on_task_cancel kill
  cancel-sent d = (ground arith, ground arith)

  -- The process that has ended.
  run-ended : (l : List Event) (d : Daemon) (status : ℕ) → d.exit_status ≡ some status → run l d ≡ d
  unfolding run step
  run-ended [] d status ended = refl
  run-ended (e ∷ l) d status ended = ground (arith, ended, run-ended l d status ended)

  results-live : (d : Daemon) → results t (emitted d) ≤ live t d
  results-live d = omega (arith, results-++ t d.wire d.buffer)

  cancelled-live :
      (l : List Event) (d : Daemon)
      → agrees d.objects d.runners ≡ true
      → pending t d.objects ≤ one_if (is_some (lookup t d.runners))
      → all_quiet t l ≡ true
      → results t (emitted (run l (on_task_cancel (some t) d))) ≤ results t (emitted d)
  cancelled-live l d h single q =
      let d' = on_task_cancel (some t) d in
      let (wire, buffer) = cancel-sent d in
      ground (
        arith,
        results-live (run l d'),
        run-live t l d' q,
        cancel-active d h single,
        ap (results t) wire,
        ap (results t) buffer,
        results-++ t d.wire d.buffer,
      )

  -- After the hub has cancelled a task, at any point of a run of the daemon from its start, the
  -- daemon emits no further result of that task, whatever happens, until the hub submits the task
  -- anew or some child reports an error of its own.
  pub cancelled_is_silent :
      (config : Config) (before after : List Event)
      → all_quiet t after ≡ true
      → let d = run before (initial config) in
        results t (emitted (run (cancel (some t) ∷ after) d)) ≤ results t (emitted d)
  unfolding run step on_event
  cancelled_is_silent config before after q =
      let d = run before (initial config) in
      elim (Option-cases d.exit_status) [
        | inl runs ↦ ground (
          arith,
          runs,
          cancelled-live after d (run-agrees config before) (run-IsSingle t config before runs) q,
        )
        | inr (status, ended) ↦ ground (arith, ended, run-ended after d status ended)
      ]
