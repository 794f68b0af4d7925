-- ===== src/Processor/Dispatching.antt =====
-- What a dispatch job does (`process` in hub-api/src/tasks/tasks.processor.ts).
use code_caller.Prelude.{ℕ, ◌≡◌, ◌≢◌, refl, some, List, [], ◌∷◌, arith}
use code_caller.Schema.{Task, Server, TaskStatus, WorkerType, WorkerProvider}
use code_caller.Platform.{Platform}
use code_caller.Hub.{Hub, ok, err, Error, ErrorKind}
use code_caller.Workers.{WorkerDispatchCandidate, candidates_in}
use code_caller.Attempts.{excluded_in}
use code_caller.Dispatch.{dispatch_task, try_candidates, no_candidates_message}
use code_caller.Dispatch.FirstOnline.{first_online, Outcome, offline_lines, try_candidates-Outcome}
use code_caller.Processor.{process, dispatch}

module _ ⦃pf : Platform⦄ (task_id : ℕ) (h : Hub) {t : Task}
    (found : pf.tasks.find_unique task_id h.tasks ≡ some t) where
  -- A dispatch job for a task that is not queued changes nothing and sends nothing, so that a job
  -- delivered twice does no harm.
  pub process_not_queued :
      t.status ≢ TaskStatus.queued → process (dispatch (some task_id)) h ≡ (ok tt, h)
  unfolding process
  process_not_queued other = ground arith

  module _ {s : Server} (waits : t.status ≡ TaskStatus.queued)
      (runs : t.worker_type ≡ WorkerType.codex)
      (server : pf.servers.find_unique t.server_id h.servers ≡ some s) where
    -- the candidates of the task
    abbrev pub candidates : List WorkerDispatchCandidate
    candidates = candidates_in WorkerProvider.codex s.owner_id t.server_id (excluded_in task_id h) h

    -- With no candidate the job fails, and nothing changes.
    pub process_no_candidates :
        candidates ≡ [] → (e : Error) × (process (dispatch (some task_id)) h ≡ (err e, h))
    unfolding process dispatch_task
    process_no_candidates none_left =
        (record { kind = ErrorKind.plain; message = no_candidates_message task_id t }, ground arith)

    process_run :
        (c : WorkerDispatchCandidate) (l : List WorkerDispatchCandidate)
        → candidates ≡ c ∷ l
        → process (dispatch (some task_id)) h ≡ try_candidates task_id t [] (c ∷ l) h
    unfolding process dispatch_task
    process_run c l some_left = ground arith

    -- A dispatch job for a queued codex task whose server exists and that has candidates: the
    -- first candidate whose daemon is connected is sent the task, which is marked as running
    -- there; if none is connected this run of the job fails, and the task keeps its status and
    -- gets a line for each candidate in its log. A run does not know how often its job was tried,
    -- so that this holds of the last try as well.
    pub process_first_online :
        candidates ≢ []
        → Outcome task_id t
            (offline_lines candidates)
            h
            (first_online h candidates)
            (process (dispatch (some task_id)) h)
    process_first_online some_left = go candidates refl
      where
        go :
            (l : List WorkerDispatchCandidate)
            → candidates ≡ l
            → Outcome task_id t
                (offline_lines candidates)
                h
                (first_online h candidates)
                (process (dispatch (some task_id)) h)
        go [] e = absurd (some_left e)
        go (c ∷ l) e =
            rw (process_run c l e, e) (try_candidates-Outcome task_id t runs [] (c ∷ l) h found)
