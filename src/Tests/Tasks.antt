-- ===== src/Tests/Tasks.antt =====
-- The theorems on tasks, attempts and approvals at a concrete hub.
use code_caller.Prelude.{
  ◌≡◌, ◌↔◌, ◌≢◌, refl, true, false, none, some, List, [], ◌∷◌, In, head, sort, insert, ◌==◌,
  if◌then◌else◌,
}
use code_caller.Database.{Sets}
use code_caller.Database.Memory.{get, select, best, modify}
use code_caller.Schema.{Task, TaskStatus, WorkerProvider, WorkerType, ServerStatus}
use code_caller.Events.{
  DaemonTaskResultPayload, DaemonResultStatus, FailureCategory, DaemonApprovalRequestPayload,
  approval_resolved, task_cancel, task_updated,
}
use code_caller.Platform.Memory.{memory}
use code_caller.Hub.{Error, ErrorKind, ok, err, to_user, to_server}
use code_caller.Prisma.{prisma_error, task_find_with_owner}
use code_caller.Realtime.{is_server_online, not_connected}
use code_caller.Approvals.{DecideApproval, decide, approval_find, handle_daemon_approval_request}
use code_caller.Approvals.Decisions.{decide_effect, decide_once, decided, released, decision_event}
use code_caller.Approvals.Requests.{request_again}
use code_caller.Workers.{WorkerDispatchCandidate, get_dispatch_candidates, candidates_in}
use code_caller.Workers.Candidates.{IsCandidate, PreferredFirst, get_dispatch_candidates_exact}
use code_caller.Attempts.{excluded_in, latest_open, distinct_ids}
use code_caller.Tasks.{CreateTask, format_failure_reason, new_task, submit, cancel}
use code_caller.Tasks.Commands.{cancel_effect, cancelled}
use code_caller.TaskResults.Reports.{result_effect, reported, ended}
use code_caller.TaskResults.{handle_daemon_task_result, handle_retryable_capacity_failure}
use code_caller.TaskResults.Failover.{
  FailedOver, left_at, capacity_failure_effect, capacity_failure_moves_on,
}
use code_caller.Dispatch.FirstOnline.{Outcome, first_online, offline_lines}
use code_caller.Processor.Unsupported.{type_error, submit_unsupported}
use code_caller.Processor.{process, dispatch}
use code_caller.Processor.Dispatching.{candidates, process_first_online}
use code_caller.Watchdog.{time_out}
use code_caller.Watchdog.TimeOuts.{TimedOut, time_out_effect}
use code_caller.Tests.World.{world, task, waiting, silent, server}

-- A dispatch of task 0, queued at server 0.
abbrev queued_task : Task
queued_task = task 0 WorkerType.codex TaskStatus.queued

abbrev running_task : Task
running_task = task 0 WorkerType.codex TaskStatus.running

queued_task_there : memory.tasks.find_unique 0 world.tasks ≡ some queued_task
unfolding get
queued_task_there = refl

running_task_there : memory.tasks.find_unique 1 world.tasks ≡ some running_task
unfolding get
running_task_there = refl

running_task_owned : task_find_with_owner 1 world ≡ some (running_task, 0)
unfolding task_find_with_owner get
running_task_owned = refl

silent_there : memory.attempts.find_unique 0 world.attempts ≡ some silent
unfolding get
silent_there = refl

silent_latest : latest_open 1 world ≡ some (0, silent)
unfolding select best
silent_latest = refl

alpha_there :
    memory.servers.find_unique 0 world.servers
    ≡ some (server 0 "alpha" "#key-a" ServerStatus.online)
unfolding get
alpha_there = refl

some_candidates : candidates 0 world queued_task_there refl refl alpha_there ≢ []
unfolding candidates_in sort insert select get excluded_in distinct_ids
some_candidates e = cc

process_first_online_example :
    let l = candidates 0 world queued_task_there refl refl alpha_there in
    Outcome 0 queued_task
      (offline_lines l)
      world
      (first_online world l)
      (process (dispatch (some 0)) world)
process_first_online_example =
    process_first_online 0 world queued_task_there refl refl alpha_there some_candidates

get_dispatch_candidates_exact_example :
    (l : List WorkerDispatchCandidate) × (get_dispatch_candidates WorkerType.codex 0 (1 ∷ []) world
      ≡ (ok l, world))
    × ((c : WorkerDispatchCandidate) → In c l ↔ IsCandidate WorkerProvider.codex 0 (1 ∷ []) world c)
    × PreferredFirst 0 l
get_dispatch_candidates_exact_example = get_dispatch_candidates_exact 0 (1 ∷ []) world alpha_there

time_out_effect_example :
    TimedOut 1 0 world running_task running_task_there silent_there refl refl
      (time_out 1 running_task 0 silent world).1
time_out_effect_example =
    time_out_effect 1 0 world running_task running_task_there silent_there refl refl

-- The daemon of server 0 reports that task 1 has no capacity there.
abbrev no_capacity : DaemonTaskResultPayload
no_capacity = record {
  task_id = 1;
  status = DaemonResultStatus.failed;
  failure = some (record {
    category = FailureCategory.capacity_exhausted;
    retryable = some true;
    message = some "rate limit";
    detail = none;
  });
  result = none;
}

capacity_failure_effect_example :
    FailedOver no_capacity world running_task_owned silent_latest refl
      (handle_retryable_capacity_failure no_capacity world).1
capacity_failure_effect_example =
    capacity_failure_effect no_capacity world running_task_owned silent_latest refl

-- the candidate that is left, at server 1
abbrev at_beta : WorkerDispatchCandidate
at_beta = record {
  server_id = 1;
  server_name = "beta";
  provider = WorkerProvider.codex;
  profile_name = "default";
}

abbrev left_after : List WorkerDispatchCandidate
left_after =
    left_at no_capacity world running_task_owned silent_latest refl
      (handle_retryable_capacity_failure no_capacity world).1

at_beta_left : In at_beta left_after
unfolding handle_retryable_capacity_failure task_find_with_owner candidates_in sort insert select
    get excluded_in distinct_ids modify best format_failure_reason
at_beta_left = head refl

capacity_failure_moves_on_example : at_beta.server_id ≢ silent.server_id
capacity_failure_moves_on_example =
    capacity_failure_moves_on no_capacity world running_task_owned silent_latest refl at_beta
      at_beta_left

abbrev yes : DecideApproval
yes = record { approve = true; reason = none }

abbrev no : DecideApproval
no = record { approve = false; reason = some (some "too late") }

abbrev waiting_task : Task
waiting_task = task 1 WorkerType.codex TaskStatus.awaiting_approval

waiting_there : memory.approvals.find_unique 0 world.approvals ≡ some waiting
unfolding get
waiting_there = refl

waiting_task_owned : task_find_with_owner 2 world ≡ some (waiting_task, 0)
unfolding task_find_with_owner get
waiting_task_owned = refl

waiting_found : approval_find 0 world ≡ some (waiting, waiting_task, 0)
unfolding approval_find get
waiting_found = refl

decided_first : (decide 0 0 yes world).0 ≡ ok (0, decided yes 5000000 waiting)
unfolding decide get is_server_online
decided_first = refl

decide_once_example :
    (e : Error) × (decide 0 0 no (decide 0 0 yes world).1 ≡ (err e, (decide 0 0 yes world).1))
decide_once_example =
    decide_once 0 0 yes world 0 no {r = (0, decided yes 5000000 waiting)} decided_first

decide_effect_example :
    let (r, h') = decide 0 0 yes world in
    (r ≡ ok (0, decided yes 5000000 waiting))
    × Sets memory.approvals 0 (decided yes 5000000 waiting) world.approvals h'.approvals
    × Sets memory.tasks 2 (released yes 5000000 waiting_task) world.tasks h'.tasks
    × (h'.sent
        ≡ to_user 0 (approval_resolved 0 (decided yes 5000000 waiting))
          ∷ (if is_server_online 1 world
              then decision_event yes waiting 1 ∷ world.sent
              else world.sent))
decide_effect_example = decide_effect 0 0 yes world waiting_found refl

-- A second request for an approval of task 2.
abbrev again : DaemonApprovalRequestPayload
again = record { task_id = 2; reason = "git push" }

request_again_example : handle_daemon_approval_request again world ≡ (err prisma_error, world)
request_again_example = request_again again world waiting_task_owned 0 waiting_there refl

-- The first one of task 1.
abbrev first : DaemonApprovalRequestPayload
first = record { task_id = 1; reason = "git push" }

none_yet : memory.approvals.find_first (λ _. 0) (λ _ b. b.task_id == 1) world.approvals ≡ none
unfolding select best
none_yet = refl

-- A new task for server 0.
abbrev for_claude : CreateTask
for_claude = record { server_id = 0; worker_type = WorkerType.claude; input = "add a test" }

submit_unsupported_example :
    let (r, h') = submit 0 for_claude world in
    let i = memory.tasks.next_id world.tasks in
    (r ≡ ok (i, new_task for_claude 5000000))
    × (process (dispatch (some i)) h' ≡ (err (type_error WorkerType.claude), h'))
    × (cancel 0 i h' ≡ (err (type_error WorkerType.claude), h'))
submit_unsupported_example = submit_unsupported 0 for_claude world alpha_there refl (λ e. cc)

-- Task 2 is at server 1, whose daemon is connected.
cancel_effect_example :
    let (r, h') = cancel 0 2 world in
    let done = cancelled 0 2 world waiting_task_owned refl 5000000 waiting_task in
    (r ≡ (
      if is_server_online 1 world
      then ok (2, done)
      else err (record { kind = ErrorKind.service_unavailable; message = not_connected 1 })))
    × Sets memory.tasks 2
        (if is_server_online 1 world then done else waiting_task)
        world.tasks
        h'.tasks
    × (h'.sent ≡ (
        if is_server_online 1 world
        then to_user 0 (task_updated 2 done) ∷ to_server 1 (task_cancel 2) ∷ world.sent
        else world.sent))
cancel_effect_example = cancel_effect 0 2 world waiting_task_owned refl

-- Task 1 is done.
abbrev finished : DaemonTaskResultPayload
finished = record {
  task_id = 1;
  status = DaemonResultStatus.completed;
  failure = none;
  result = some "all green";
}

result_effect_example :
    let h' = (handle_daemon_task_result finished world).1 in
    Sets memory.attempts 0
      (ended finished world running_task_owned silent_latest refl silent)
      world.attempts
      h'.attempts
    × Sets memory.tasks 1
        (reported finished world running_task_owned silent_latest refl running_task)
        world.tasks
        h'.tasks
    × (h'.added ≡ [])
result_effect_example = result_effect finished world running_task_owned silent_latest refl
