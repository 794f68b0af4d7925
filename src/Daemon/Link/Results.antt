-- ===== src/Daemon/Link/Results.antt =====
-- What the hub (hub-api/src/tasks/tasks.service.ts) makes of the results that the daemon
-- (agent-daemon/src/runner.js) sends.
use code_caller.Prelude.{
  ℕ, ◌≤◌, ◌≡◌, refl, ap, String, Bool, true, false, not, ◌&&◌, Option, none, some, List, [], ◌∷◌,
  leb, length, In, head, tail, if◌then◌else◌, arith,
}
use code_caller.Events.{DaemonTaskResultPayload, DaemonResultStatus, FailureCategory}
use code_caller.Platform.{Platform}
use code_caller.Hub.{Hub, Action}
use code_caller.Tasks.{is_capacity, is_false}
use code_caller.TaskResults.{
  handle_daemon_task_result, handle_retryable_capacity_failure, finish_task,
}
use code_caller.Units.{Text}
use code_caller.Units.Lengths.{length-take_last}
use code_caller.Daemon.Failures.{Failure, detect_structured_failure, exited_well}
use code_caller.Daemon.Failures
use code_caller.Daemon.State.{Config, Message, approval_request, task_result, Output}
use code_caller.Daemon.Runner.{status_of}
use code_caller.Daemon.Approvals.Reasons.{length-reason}
use code_caller.Daemon.Client.{Event, run, initial}
use code_caller.Daemon.Client.Due.{emitted}
use code_caller.Daemon.Client.Kept.{IsKept, all, all-++}
use code_caller.Daemon.Client.Runners.{run-Holds}
use code_caller.Daemon.Link.{result_payload}

-- A failure says that a worker has no capacity, and comes with the status that makes the hub look.
abbrev fits : DaemonResultStatus → Option Failure → Bool
fits status none = true
fits DaemonResultStatus.completed (some f) = false
fits DaemonResultStatus.failed (some f) =
    is_capacity f.category && (f.retryable && leb (length f.detail) 1200)

abbrev pub is_sound : Message → Bool
is_sound (approval_request t reason) = leb (length reason) 241
is_sound (task_result t status failure output) = fits status failure
is_sound _ = true

le→leb : (a b : ℕ) → a ≤ b → leb a b ≡ true
le→leb a b h = ground arith

length-excerpt : (s : Text) → leb (length (Failures.excerpt s)) 1200 ≡ true
unfolding Failures.excerpt
length-excerpt s = le→leb _ _ (length-take_last 1200 _)

fits-cases :
    (well signal : Bool) (f : Failure)
    → (is_capacity f.category && (f.retryable && leb (length f.detail) 1200)) ≡ true
    → fits (status_of well) (if well then none else if signal then some f else none) ≡ true
fits-cases true signal f h = refl
fits-cases false true f h = h
fits-cases false false f h = refl

detected-fits :
    (code : Option ℕ) (signal : Option Text) (output : Text)
    → fits (status_of (exited_well code signal)) (detect_structured_failure code signal output)
      ≡ true
unfolding detect_structured_failure
detected-fits code signal output = fits-cases (exited_well code signal) _ _ (length-excerpt output)

is_sound-IsKept : IsKept (λ r. true) is_sound
is_sound-IsKept = record {
  new = λ t input. refl;
  launch = λ r h. refl;
  receive = λ chunk r h. refl;
  ask = λ r h. refl;
  resume = λ r h. refl;
  cancel = λ r h. refl;
  dispose = λ r h. refl;
  leave = λ code r h. refl;
  handle = λ r h. refl;
  say_heartbeat = refl;
  say_running = λ t. refl;
  say_log = λ t chunk. refl;
  say_request = λ t output reason hit. le→leb _ _ (length-reason output reason hit);
  say_failed = λ t reason. detected-fits none none reason;
  say_result = λ t code signal output chunk. detected-fits code signal output;
}

-- What the daemon emits is sound: no reason and no detail is too long, and failures fit.
pub run-is_sound :
    (config : Config) (l : List Event) → all is_sound (emitted (run l (initial config))) ≡ true
unfolding all
run-is_sound config l =
    let (o, w, b) =
      run-Holds (λ r. true) is_sound is_sound-IsKept l (initial config) (refl, refl, refl) in
    all-++ is_sound (run l (initial config)).wire (run l (initial config)).buffer w b

all-In {ℓ} : {A : Type ℓ} (P : A → Bool) (x : A) (l : List A) → In x l → all P l ≡ true → P x ≡ true
unfolding all
all-In P x [] m h = elim m [ ]
all-In P x (y ∷ l) (head e) h = ground (arith, ap P e)
all-In P x (y ∷ l) (tail m) h = ground (arith, all-In P x l m)

is_retried :
    (category : FailureCategory) (retryable short : Bool)
    → (is_capacity category && (retryable && short)) ≡ true
    → (is_capacity category && not (is_false (some retryable))) ≡ true
is_retried FailureCategory.capacity_exhausted true short g = refl
is_retried FailureCategory.capacity_exhausted false short g = cc
is_retried FailureCategory.process_error retryable short g = cc
is_retried FailureCategory.unknown retryable short g = cc

module _ ⦃pf : Platform⦄ (text_of : Text → String) (json_of : Output → String) where
  abbrev pub expected : ℕ → DaemonResultStatus → Option Failure → Output → Action (Unit {0})
  expected t status none output = finish_task (result_payload text_of json_of t status none output)
  expected t status (some f) output =
      handle_retryable_capacity_failure (result_payload text_of json_of t status (some f) output)

  reaction :
      (t : ℕ) (status : DaemonResultStatus) (failure : Option Failure) (output : Output)
      → fits status failure ≡ true
      → (h : Hub)
      → handle_daemon_task_result (result_payload text_of json_of t status failure output) h
        ≡ expected t status failure output h
  unfolding handle_daemon_task_result
  reaction t DaemonResultStatus.completed none output g h = refl
  reaction t DaemonResultStatus.failed none output g h = refl
  reaction t DaemonResultStatus.completed (some f) output g h = cc
  reaction t DaemonResultStatus.failed (some f) output g h =
      ap (λ b. (if b then handle_retryable_capacity_failure payload else finish_task payload) h)
        (is_retried f.category f.retryable (leb (length f.detail) 1200) g)
    where
      payload : DaemonTaskResultPayload
      payload = result_payload text_of json_of t DaemonResultStatus.failed (some f) output

  -- The handler of the hub does with a result that a daemon emitted in a run from its start what
  -- handleRetryableCapacityFailure does if the daemon found a failure, and what the rest of the
  -- handler does if it found none, whatever the status and the output.
  pub hub_reaction :
      (config : Config) (l : List Event) (t : ℕ) (status : DaemonResultStatus)
      (failure : Option Failure) (output : Output) (h : Hub)
      → In (task_result t status failure output) (emitted (run l (initial config)))
      → handle_daemon_task_result (result_payload text_of json_of t status failure output) h
        ≡ expected t status failure output h
  hub_reaction config l t status failure output h m =
      reaction t status failure output
        (all-In is_sound _ (emitted (run l (initial config))) m (run-is_sound config l)) h
