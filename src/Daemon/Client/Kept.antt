-- ===== src/Daemon/Client/Kept.antt =====
-- The interface of an invariant of the runners and messages of the daemon
-- (agent-daemon/src/runner.js): what each assignment and each message has to keep.
use code_caller.Prelude.{
  ℕ, zero, suc, ◌≡◌, refl, Bool, true, ◌&&◌, Option, none, some, List, [], ◌∷◌, ◌++◌, arith,
}
use code_caller.Events.{DaemonResultStatus}
use code_caller.Units.{Text}
use code_caller.Daemon.Approvals.{detect}
use code_caller.Daemon.Failures.{detect_structured_failure, exited_well}
use code_caller.Daemon.State.{
  Input, Runner, Message, heartbeat, alter, task_running, task_log, approval_request, task_result,
  exited, error,
}
use code_caller.Daemon.Runner.{
  killed, resumed, received, handled, asked, spawned, status_of, disposed,
}
use code_caller.Daemon.Client.{exits, new_runner}

-- All the assignments that the methods of a runner make, and all the messages that they emit.
pub record IsKept (P : Runner → Bool) (Q : Message → Bool) : Type 0 where
  pub new : (t : ℕ) (input : Input) → P (new_runner t input) ≡ true
  pub launch : (r : Runner) → P r ≡ true → P (record r { child = some spawned }) ≡ true
  pub receive : (chunk : Text) (r : Runner) → P r ≡ true → P (received chunk r) ≡ true
  pub ask : (r : Runner) → P r ≡ true → P (asked r) ≡ true
  pub resume : (r : Runner) → P r ≡ true → P (resumed r) ≡ true
  pub cancel : (r : Runner) → P r ≡ true → P (killed r) ≡ true
  pub dispose : (r : Runner) → P r ≡ true → P (disposed r) ≡ true
  pub leave : (code : ℕ) (r : Runner) → P r ≡ true → P (exits code r) ≡ true
  pub handle : (r : Runner) → P r ≡ true → P (handled r) ≡ true
  pub say_heartbeat : Q heartbeat ≡ true
  pub say_running : (t : ℕ) → Q (task_running t) ≡ true
  pub say_log : (t : ℕ) (chunk : Text) → Q (task_log t chunk) ≡ true
  pub say_request :
      (t : ℕ) (output reason : Text)
      → detect output ≡ some reason
      → Q (approval_request t reason) ≡ true
  pub say_failed :
      (t : ℕ) (reason : Text)
      → Q (
          task_result t DaemonResultStatus.failed
            (detect_structured_failure none none reason)
            (error reason))
        ≡ true
  pub say_result :
      (t : ℕ) (code : Option ℕ) (signal : Option Text) (output chunk : Text)
      → Q (
          task_result t
            (status_of (exited_well code signal))
            (detect_structured_failure code signal output)
            (exited code signal chunk))
        ≡ true

unfoldable pub all {ℓ} : {A : Type ℓ} → (A → Bool) → List A → Bool
all P [] = true
all P (x ∷ l) = P x && all P l

pub all-++ {ℓ} :
    {A : Type ℓ} (P : A → Bool) (l k : List A)
    → all P l ≡ true
    → all P k ≡ true
    → all P (l ++ k) ≡ true
unfolding all
all-++ P [] k h g = g
all-++ P (x ∷ l) k h g = ground (arith, all-++ P l k)

pub all-alter :
    (P : Runner → Bool) (f : Runner → Runner) (i : ℕ) (l : List Runner)
    → ((r : Runner) → P r ≡ true → P (f r) ≡ true)
    → all P l ≡ true
    → all P (alter i f l) ≡ true
unfolding all alter
all-alter P f i [] k h = refl
all-alter P f zero (r ∷ l) k h = ground (arith, k r)
all-alter P f (suc i) (r ∷ l) k h = ground (arith, all-alter P f i l k)
