-- ===== src/Duration.antt =====
-- hub-api/src/common/duration.util.ts.
use Prim.Native.Char.{code}
use code_caller.Prelude.{ℕ, ◌-◌, ◌*◌, String, ◌&&◌, Option, none, some, ◌==◌, if◌then◌else◌, str_eq}
use code_caller.Text.{is_space, is_digit, shift}

-- `UNIT_MS`
abbrev pub unit_ms : ℕ → Option ℕ
unit_ms c =
    if c == b's'
    then some 1000
    else if c == b'm'
    then some (60 * 1000)
    else if c == b'h'
    then some (60 * 60 * 1000)
    else if c == b'd'
    then some (24 * 60 * 60 * 1000)
    else none

-- `value.trim()`
trim_start : String → String
trim_start String.[] = ""
trim_start (String.◌∷◌ c s) = if is_space (code c) then trim_start s else String.◌∷◌ c s

trim_end : String → String
trim_end String.[] = ""
trim_end (String.◌∷◌ c s) =
    let rest = trim_end s in if is_space (code c) && str_eq rest "" then "" else String.◌∷◌ c rest

-- after the digits: a unit, and then the end
abbrev finish : Option ℕ → Option ℕ → String → Option ℕ
finish (some n) (some u) String.[] = some (n * u)
finish _ _ _ = none

match_from : Option ℕ → String → Option ℕ
match_from acc String.[] = none
match_from acc (String.◌∷◌ c s) =
    if is_digit (code c)
    then match_from (shift acc (code c - b'0')) s
    else finish acc (unit_ms (code c)) s

-- `none` where the source throws; the numbers are exact, as in the source below 2 ^ 53.
unfoldable pub duration_to_ms : String → Option ℕ
unfolding match_from trim_start trim_end
duration_to_ms value = match_from none (trim_end (trim_start value))
