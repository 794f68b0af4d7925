-- ===== src/Tests/Screen.antt =====
-- The screen of the app at concrete events, and runs of its wording.
use code_caller.Prelude.{◌≤◌, ◌≡◌, refl, true, false, none, some, [], ◌∷◌, map, arith}
use code_caller.Units.{
  codes, drop, after, replace_all, replace_from, trim, trim_start, trim_end, take_last, text_eq,
}
use code_caller.Text.{decimal}
use code_caller.Mobile.{AuthTokens, done}
use code_caller.Mobile.Results.{
  readable_text, drop_openings, drop_closings, extract_prompt, find_field, object, field, string,
  null, no_field,
}
use code_caller.Mobile.Wording.{
  take, compact_id, push_summary, replace_first, format_relative_time, format_minutes,
}
use code_caller.Mobile.Items.{ServerItem, TaskItem, ApprovalItem, AllData, Screen}
use code_caller.Mobile.Items.{approvals_tab}
use code_caller.Mobile.Shown.{view, pending_approvals}
use code_caller.Mobile.Display.{normalize_status}
use code_caller.Mobile.Wording.{has_part}
use code_caller.Mobile.Parts.{Locale, all_taps, each}
use code_caller.Mobile.Views.{approvals_list}
use code_caller.Mobile.Pages.{Form, page, header, bottom_navigation}
use code_caller.Mobile.Taps.{is_offered}
use code_caller.Mobile.PageOffers.{page-IsOffered}
use code_caller.Mobile.Decided.{spares, resolved_not_offered}
use code_caller.Mobile.Screen.{find_task}
use code_caller.Mobile.Screen.Events.{
  signed_in, server_tap, task_updated, run, initial, on_event, approval_resolved,
}
use code_caller.Mobile.Screen.Selection.{is_fit, run-is_fit}
use code_caller.Mobile.Screen.Updates.{latest, copies, run-task_updated}

abbrev tokens : AuthTokens
tokens = record { access_token = "a"; refresh_token = "r" }

abbrev build : ServerItem
build = record {
  id = 3;
  name = "build";
  os_type = "UBUNTU";
  tailscale_ip = "100.64.0.1";
  status = "ONLINE";
  last_heartbeat_at = none;
}

abbrev queued : TaskItem
queued = record {
  id = 1;
  server_id = 3;
  worker_type = "CODEX";
  status = "QUEUED";
  input = string (codes "fix the build");
  result = null;
  logs = none;
  created_at = "2026-11-25";
}

abbrev answers : AllData
answers = record { servers = build ∷ []; registrations = []; tasks = queued ∷ []; approvals = [] }

run-is_fit_example :
    is_fit (run (signed_in tokens (done answers) ∷ server_tap 7 ∷ []) initial) ≡ true
run-is_fit_example = run-is_fit (signed_in tokens (done answers) ∷ server_tap 7 ∷ [])

abbrev running : TaskItem
running = record queued { status = "RUNNING" }

abbrev loaded : Screen
loaded = record initial { tasks = answers.tasks }

shown_once : copies 1 loaded.tasks ≤ 1
unfolding copies
shown_once = omega arith

run-task_updated_example :
    (find_task 1 (run (map task_updated (running ∷ [])) loaded).tasks
      ≡ latest 1 (running ∷ []) (find_task 1 loaded.tasks))
    × (copies 1 (run (map task_updated (running ∷ [])) loaded).tasks ≤ 1)
run-task_updated_example = run-task_updated 1 (running ∷ []) loaded shown_once

short_id : compact_id (some (codes "0123456789abcdef")) ≡ codes "01234567...cdef"
unfolding compact_id take take_last drop
short_id = refl

unfenced : readable_text (codes "```sh\\nls\\n```") ≡ codes "ls"
unfolding readable_text replace_all replace_from after drop_openings drop_closings trim trim_start
    trim_end
unfenced = refl

prompt_shown :
    extract_prompt (λ v. []) (object (field (codes "prompt") (string (codes "fix")) no_field))
    ≡ codes "fix"
unfolding extract_prompt find_field text_eq
prompt_shown = refl

registered_banner : (push_summary (codes "registered abc...")).detail ≡ codes "토큰 abc..."
unfolding push_summary replace_first after
registered_banner = refl

an_hour : format_relative_time (λ s. s) (λ s. some 0) 3600000 (some (codes "x")) ≡ codes "1시간 전"
unfolding format_relative_time format_minutes decimal
an_hour = refl

abbrev locale : Locale
locale = record {
  upper = λ s. s;
  trim = λ s. s;
  id_text = λ i. codes "t";
  format = λ s. s;
  time_of = λ s. some 0;
  now = 0;
  stringify = λ v. [];
}

abbrev form : Form
form = record { active_url = "http://hub"; email = "me"; password = "secret" }

abbrev waiting : ApprovalItem
waiting = record {
  id = 5;
  task_id = 1;
  status = "PENDING";
  reason = some "git push";
  requested_at = "2026-11-25";
  task = none;
}

-- The tab of the approvals, with one that is pending.
abbrev asking : Screen
asking = record loaded { tokens = some tokens; approvals = waiting ∷ []; tab = approvals_tab }

-- It offers a decision on that approval.
decision_offered : all_taps (spares 5) (page locale false form asking) ≡ false
unfolding all_taps page view header approvals_list pending_approvals each push_summary
    normalize_status bottom_navigation has_part replace_first after take take_last
decision_offered = refl

page-IsOffered_example :
    all_taps (is_offered locale.trim asking) (page locale false form asking) ≡ true
page-IsOffered_example = page-IsOffered locale form asking false

abbrev approved : ApprovalItem
approved = record waiting { status = "APPROVED" }

resolved_not_offered_example :
    all_taps (spares 5) (page locale false form (on_event (approval_resolved approved) asking))
    ≡ true
resolved_not_offered_example = resolved_not_offered locale false form approved asking refl
