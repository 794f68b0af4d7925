-- ===== src/Mobile/Parts.antt =====
-- What a view of the app consists of, in reading order, and the small components that the views
-- share (mobile-app/App.tsx). Layout, styles, scrolling and the keyboard are left out; a selection
-- that is only coloured is left out with them.
use code_caller.Prelude.{
  ℕ, String, Bool, true, false, ◌&&◌, Option, none, some, List, [], ◌∷◌, ◌++◌,
}
use code_caller.Schema.{WorkerType}
use code_caller.Units.{Text, codes}
use code_caller.Mobile.Display.{Tone, Pill, normalize_status}
use code_caller.Mobile.Results.{Value}
use code_caller.Mobile.Items.{Tab, RegistrationItem, ApprovalItem}

-- What the language and the phone bring: `toUpperCase`, `trim`, the text of an id, a date as it is
-- shown and as a time, the clock, and `JSON.stringify`.
pub record Locale : Type 0 where
  pub upper : String → String
  pub trim : String → String
  pub id_text : ℕ → Text
  pub format : Text → Text
  pub time_of : Text → Option ℕ
  pub now : ℕ
  pub stringify : Value → Text

pub data Line : Type 0 where
  words : Text → Line
  pill : Pill → Line
  dot : Tone → Line

-- What a press asks for. `confirm` opens a dialog, whose one button but for the cancellation asks
-- for what it carries.
pub data Tap : Type 0 where
  log_in reload log_out register_push submit : Tap
  decide : ApprovalItem → (approve : Bool) → Tap
  decide_request : RegistrationItem → (approve : Bool) → Tap
  choose_server : ℕ → Tap
  show_task : Option ℕ → Tap
  change_tab : Tab → Tap
  choose_worker : WorkerType → Tap
  confirm : (question detail : Text) → Tap → Tap

pub data Input : Type 0 where
  email password prompt : Input

pub data Part : Type 0 where
  line : Line → Part
  spinner : Part
  input : Input → (placeholder value : Text) → Part
  button : (disabled : Bool) → Tap → List Line → Part

abbrev pub say : String → Part
say s = line (words (codes s))

abbrev pub option_text : Option String → Option Text
option_text none = none
option_text (some s) = some (codes s)

-- `a || b` of texts
abbrev pub or_text : Text → Text → Text
or_text [] b = b
or_text (c ∷ s) b = c ∷ s

abbrev pub reason_or : Option String → Text → Text
reason_or none b = b
reason_or (some r) b = or_text (codes r) b

-- `StatusPill`
abbrev pub status_pill : Locale → String → Line
status_pill locale label = pill (normalize_status locale.upper label)

-- `ScreenHeading`
abbrev pub screen_heading : (title subtitle : String) → List Part
screen_heading title subtitle = say title ∷ say subtitle ∷ []

-- `EmptyState`
abbrev pub empty_state : String → List Part
empty_state label = say label ∷ say "새로고침하거나 다른 화면에서 작업을 생성하세요." ∷ []

-- `InfoBlock`; the number of lines is layout
abbrev pub info_block : String → Text → List Line
info_block label value = words (codes label) ∷ words value ∷ []

-- `ErrorBanner`, where there is an error
abbrev pub error_banner : Option String → List Part
error_banner none = []
error_banner (some String.[]) = []
error_banner (some message) = say "요청을 처리하지 못했습니다" ∷ say message ∷ []

-- `PrimaryButton` and `DangerButton`
abbrev pub labelled_button : (disabled : Bool) → String → Tap → Part
labelled_button disabled label tap = button disabled tap (words (codes label) ∷ [])

abbrev pub spinner_if : Bool → List Part
spinner_if true = spinner ∷ []
spinner_if false = []

-- The elements of a list, each as its parts.
unfoldable pub each : {A : Type 0} → (A → List Part) → List A → List Part
each f [] = []
each f (a ∷ l) = f a ++ each f l

-- `FlatList`: its items, or what stands for none.
abbrev pub items : {A : Type 0} → (A → List Part) → List Part → List A → List Part
items f empty [] = empty
items f empty (a ∷ l) = each f (a ∷ l)

-- What a press asks for in the end.
abbrev pub goal : Tap → Tap
goal (confirm question detail tap) = tap
goal tap = tap

-- Whether all that can be asked for passes a test.
unfoldable pub all_taps : (Tap → Bool) → List Part → Bool
all_taps p [] = true
all_taps p (button false tap lines ∷ l) = p (goal tap) && all_taps p l
all_taps p (button true tap lines ∷ l) = all_taps p l
all_taps p (line a ∷ l) = all_taps p l
all_taps p (spinner ∷ l) = all_taps p l
all_taps p (input i placeholder value ∷ l) = all_taps p l
