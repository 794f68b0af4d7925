-- ===== src/Mobile/Wording.antt =====
-- How the app words what it shows (mobile-app/App.tsx), but for the status, prompts and
-- results: ids, times and the state of the push messages. The clock and what `Date` makes of a text
-- are parameters.
use Prim.Native.Nat.{◌/◌}
use code_caller.Prelude.{
  ℕ, zero, suc, ◌-◌, Bool, ◌||◌, Option, none, some, [], ◌∷◌, ◌++◌, leb, ltb, length, if◌then◌else◌,
}
use code_caller.Text.{decimal}
use code_caller.Units.{Text, codes, is_empty, has_prefix, take_last, after}
use code_caller.Mobile.Display.{Tone, success, info, warning, neutral}

-- `value.slice(0, n)`
unfoldable pub take : ℕ → Text → Text
take zero s = []
take (suc n) [] = []
take (suc n) (c ∷ s) = c ∷ take n s

-- `compactId`
unfoldable pub compact_id : Option Text → Text
unfolding take take_last
compact_id none = codes "n/a"
compact_id (some value) =
    if is_empty value
    then codes "n/a"
    else if leb (length value) 14
    then value
    else take 8 value ++ (codes "..." ++ take_last 4 value)

abbrev pub no_record : Text
no_record = codes "기록 없음"

module _ (format : Text → Text) where
  -- `formatDate`, with the conversion of a date that is there
  abbrev pub format_date : Option Text → Text
  format_date none = no_record
  format_date (some value) = if is_empty value then no_record else format value

  -- the answer for a date that many minutes ago
  unfoldable pub format_minutes : ℕ → Text → Text
  format_minutes minutes value =
      if ltb minutes 1
      then codes "방금 전"
      else if ltb minutes 60
      then codes (decimal minutes) ++ codes "분 전"
      else if ltb (minutes / 60) 24
      then codes (decimal (minutes / 60)) ++ codes "시간 전"
      else format value

  -- `formatRelativeTime`; a date in the future counts as now, and an invalid one is formatted
  unfoldable pub format_relative_time : (Text → Option ℕ) → ℕ → Option Text → Text
  unfolding format_minutes
  format_relative_time time_of now none = no_record
  format_relative_time time_of now (some value) =
      if is_empty value then no_record else elim (time_of value) [
        | none ↦ format value
        | some time ↦ format_minutes ((now - time) / 60000) value
      ]

-- A value that JSON holds: `other` is a number, a Boolean or an array, by whether it counts as true.
-- What `pushSummary` shows.
pub record Banner : Type 0 where
  pub title : Text
  pub detail : Text
  pub tone : Tone

-- `s.includes(part)`
unfoldable pub has_part : Text → Text → Bool
unfolding after
has_part part [] = has_prefix part []
has_part part (c ∷ s) = let later = has_part part s in has_prefix part (c ∷ s) || later

-- `s.replace(part, by)`: the first place alone
unfoldable pub replace_first : Text → Text → Text → Text
unfolding after
replace_first part by [] = []
replace_first part by (c ∷ s) =
    let later = replace_first part by s in
    elim (after part (c ∷ s)) [ none ↦ c ∷ later | some rest ↦ by ++ rest ]

-- `pushSummary`
unfoldable pub push_summary : Text → Banner
unfolding has_part replace_first after
push_summary state =
    if has_prefix (codes "registered") state
    then record {
      title = codes "푸시 알림 켜짐";
      detail = replace_first (codes "registered ") (codes "토큰 ") state;
      tone = success;
    }
    else if has_part (codes "requesting") state
    then record { title = codes "푸시 알림 등록 중"; detail = codes "기기 토큰을 확인하고 있습니다."; tone = info }
    else if has_part (codes "unavailable") state
    then record {
      title = codes "알림을 사용할 수 없음";
      detail = codes "Firebase 설정을 확인한 뒤 다시 시도하세요.";
      tone = warning;
    }
    else record { title = codes "푸시 알림 꺼짐"; detail = codes "승인 요청 알림을 받으려면 등록하세요."; tone = neutral }
