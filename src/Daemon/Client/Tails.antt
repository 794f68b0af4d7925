-- ===== src/Daemon/Client/Tails.antt =====
-- How much of the output of a child a runner keeps, and what the child is sent
-- (agent-daemon/src/runner.js).
use code_caller.Prelude.{
  ◌≡◌, refl, Bool, true, false, not, inl, inr, ◌&&◌, Option-cases, List, [], ◌∷◌, Option, none,
  some, leb, arith, length,
}
use code_caller.Units.{Text}
use code_caller.Daemon.State.{Config, Child, Runner}
use code_caller.Daemon.Runner.{tail_limit, if_alive}
use code_caller.Daemon.Client.{Event, run, initial}
use code_caller.Daemon.Client.Kept.{IsKept, all}
use code_caller.Daemon.Client.Runners.{run-Holds}

abbrev pub has_short_tail : Runner → Bool
has_short_tail r = leb (length r.tail) tail_limit

abbrev is_empty_list : List Text → Bool
is_empty_list [] = true
is_empty_list (s ∷ l) = false

abbrev gets_nothing : Option Child → Bool
gets_nothing none = true
gets_nothing (some c) = not c.stdin_open && is_empty_list c.written

-- The child's standard input is closed, and nothing was written to it.
abbrev pub is_sent_nothing : Runner → Bool
is_sent_nothing r = gets_nothing r.child

gets_nothing-if_alive :
    (f : Child → Child) (c : Option Child)
    → ((c : Child) → gets_nothing (some c) ≡ true → gets_nothing (some (f c)) ≡ true)
    → gets_nothing c ≡ true
    → gets_nothing (if_alive f c) ≡ true
gets_nothing-if_alive f none k h = refl
gets_nothing-if_alive f (some c) k h = elim (Option-cases c.exit_code) [
  | inl runs ↦ ground (arith, k c)
  | inr (code, ended) ↦ ground arith
]

is_sent_nothing-IsKept : IsKept is_sent_nothing (λ m. true)
is_sent_nothing-IsKept = record {
  new = λ t input. refl;
  launch = λ r h. refl;
  receive = λ chunk r h. h;
  ask = λ r h. h;
  resume = λ r h. gets_nothing-if_alive _ r.child (λ c g. ground arith) h;
  cancel = λ r h. gets_nothing-if_alive _ r.child (λ c g. g) h;
  dispose = λ r h. gets_nothing-if_alive _ r.child (λ c g. g) h;
  leave = λ code r h. gets_nothing-if_alive _ r.child (λ c g. g) h;
  handle = λ r h. h;
  say_heartbeat = refl;
  say_running = λ t. refl;
  say_log = λ t chunk. refl;
  say_request = λ t output reason hit. refl;
  say_failed = λ t reason. refl;
  say_result = λ t code signal output chunk. refl;
}

-- In any run from the daemon's start, the standard input of every child is closed and nothing was
-- written to it, approvals included.
pub run-is_sent_nothing :
    (config : Config) (l : List Event) → all is_sent_nothing (run l (initial config)).objects ≡ true
unfolding all
run-is_sent_nothing config l =
    (run-Holds is_sent_nothing (λ m. true) is_sent_nothing-IsKept l (initial config)
      (refl, refl, refl)).0
