-- ===== src/Daemon/Failures.antt =====
-- agent-daemon/src/failure-detector.js
use code_caller.Prelude.{
  ℕ, zero, suc, ◌-◌, Bool, true, false, not, ◌&&◌, ◌||◌, Option, none, some, List, [], ◌∷◌, ◌==◌,
  map, length, if◌then◌else◌,
}
use code_caller.Events.{FailureCategory}
use code_caller.Units.{Text, codes, is_empty, take_last, trim, lines, join, filter}
use code_caller.Daemon.Patterns.{Pattern, ◌then◌, edge, one, word, opt, any_of, found_any}

-- `CAPACITY_PATTERNS`
abbrev pub capacity_patterns : List Pattern
capacity_patterns =
    (edge then word "capacity" then edge)
    ∷ (edge then word "quota" then edge)
    ∷ (edge
        then word "rate"
        then opt (one (λ c. c == b' ' || c == b'-'))
        then word "limit"
        then opt (any_of (word "ed" ∷ word "s" ∷ []))
        then edge)
    ∷ (edge then word "usage limit" then edge)
    ∷ (edge then word "limit reached" then edge)
    ∷ (edge then word "too many requests" then edge)
    ∷ (edge then word "try again later" then edge)
    ∷ (edge then word "temporarily unavailable" then edge)
    ∷ (edge then word "model is overloaded" then edge)
    ∷ (edge then word "service is overloaded" then edge)
    ∷ []

unfoldable pub drop_lines : ℕ → List Text → List Text
drop_lines zero l = l
drop_lines (suc n) [] = []
drop_lines (suc n) (s ∷ l) = drop_lines n l

-- `.slice(-n)` of the lines
unfoldable pub last_lines : ℕ → List Text → List Text
unfolding drop_lines
last_lines n l = drop_lines (length l - n) l

unfoldable pub excerpt : Text → Text
unfolding trim lines filter last_lines join
excerpt s =
    take_last 1200
      (join (codes "\n") (last_lines 5 (filter (λ l. not (is_empty l)) (map trim (lines s)))))

pub record Failure : Type 0 where
  pub category : FailureCategory
  pub retryable : Bool
  pub message : Text
  pub detail : Text

abbrev pub exited_well : Option ℕ → Option Text → Bool
exited_well (some zero) none = true
exited_well _ _ = false

unfoldable pub detect_structured_failure : Option ℕ → Option Text → Text → Option Failure
unfolding excerpt found_any
detect_structured_failure exit_code signal output =
    if exited_well exit_code signal
    then none
    else if not (is_empty (excerpt output)) && found_any capacity_patterns (excerpt output)
    then some (record {
      category = FailureCategory.capacity_exhausted;
      retryable = true;
      message = codes "Worker capacity, quota, or rate-limit signal detected.";
      detail = excerpt output;
    })
    else none
