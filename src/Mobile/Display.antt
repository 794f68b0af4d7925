-- ===== src/Mobile/Display.antt =====
-- How the app words a status (`normalizeStatus` in mobile-app/App.tsx).
use code_caller.Prelude.{◌≡◌, refl, String, Bool, ◌||◌, starts_with, if◌then◌else◌, str_eq}
use code_caller.Schema.{TaskStatus}

pub data Tone : Type 0 where
  success info warning danger neutral : Tone

pub record Pill : Type 0 where
  pub label : String
  pub tone : Tone

-- `value.includes(part)`
unfoldable pub includes : String → String → Bool
includes String.[] part = str_eq part ""
includes (String.◌∷◌ c s) part = starts_with (String.◌∷◌ c s) part || includes s part

abbrev pill : String → Tone → Pill
pill label tone = record { label = label; tone = tone }

-- `normalizeStatus`, with `toUpperCase` as `upper`
unfoldable pub normalize_status : (String → String) → String → Pill
unfolding includes
normalize_status upper value =
    let status = upper value in
    if includes status "CONNECTED"
    then pill "Connected" success
    else if includes status "ONLINE"
    then pill "Online" success
    else if includes status "RUNNING" || includes status "QUEUED"
    then pill (if includes status "QUEUED" then "대기 중" else "실행 중") info
    else if includes status "AWAITING_APPROVAL" || includes status "PENDING"
    then pill "승인 대기" warning
    else if includes status "COMPLETED" || includes status "APPROVED"
    then pill (if includes status "APPROVED" then "승인됨" else "완료") success
    else if includes status "FAILED" || includes status "ERROR"
    then pill "실패" danger
    else if includes status "OFFLINE"
        || (includes status "DISCONNECTED"
            || (includes status "CANCELLED" || includes status "REJECTED"))
    then pill
        (if includes status "REJECTED"
          then "거절됨"
          else if includes status "CANCELLED"
          then "취소됨"
          else "Offline")
        neutral
    else pill value neutral

-- The names of the statuses of a task, as the hub sends them.
abbrev pub task_status_name : TaskStatus → String
task_status_name TaskStatus.queued = "QUEUED"
task_status_name TaskStatus.running = "RUNNING"
task_status_name TaskStatus.awaiting_approval = "AWAITING_APPROVAL"
task_status_name TaskStatus.completed = "COMPLETED"
task_status_name TaskStatus.failed = "FAILED"
task_status_name TaskStatus.cancelled = "CANCELLED"

-- The pill of each status of a task.
abbrev pub task_pill : TaskStatus → Pill
task_pill TaskStatus.queued = pill "대기 중" info
task_pill TaskStatus.running = pill "실행 중" info
task_pill TaskStatus.awaiting_approval = pill "승인 대기" warning
task_pill TaskStatus.completed = pill "완료" success
task_pill TaskStatus.failed = pill "실패" danger
task_pill TaskStatus.cancelled = pill "취소됨" neutral

-- If `toUpperCase` keeps the name of a task's status, the app shows that status in the wording
-- and tone of its own, which no earlier test takes and which is not the raw name.
pub normalize_status-task :
    (upper : String → String) (t : TaskStatus)
    → upper (task_status_name t) ≡ task_status_name t
    → normalize_status upper (task_status_name t) ≡ task_pill t
unfolding normalize_status includes
normalize_status-task upper TaskStatus.queued same = rw same refl
normalize_status-task upper TaskStatus.running same = rw same refl
normalize_status-task upper TaskStatus.awaiting_approval same = rw same refl
normalize_status-task upper TaskStatus.completed same = rw same refl
normalize_status-task upper TaskStatus.failed same = rw same refl
normalize_status-task upper TaskStatus.cancelled same = rw same refl
