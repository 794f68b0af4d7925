-- ===== src/Tests/Detection.antt =====
-- Runs of the detectors.
use code_caller.Prelude.{◌≡◌, refl, none, some}
use code_caller.Units.{codes, lines, trim, drop, take_last, drop_return}
use code_caller.Daemon.Patterns.{found_any, matches, match_many, match_one}
use code_caller.Daemon.Approvals.{detect, excerpt, strip_ansi}

prompt :
    detect (codes "Deleting 3 files.\nProceed?  (Y/n)")
    ≡ some (codes "Deleting 3 files. Proceed? (Y/n)")
unfolding detect strip_ansi lines drop_return found_any matches match_many match_one excerpt trim
    take_last drop
prompt = refl

no_prompt : detect (codes "Why not? Because.") ≡ none
unfolding detect strip_ansi lines drop_return found_any matches match_many match_one excerpt trim
no_prompt = refl
