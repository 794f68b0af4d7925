-- ===== src/Text.antt =====
-- The functions on strings and numbers of the language that the hub uses: decimal texts,
-- `padStart`, `split`, `slice`, `join`, `parseInt`. A string is its sequence of characters.
use Prim.Native.Nat.{◌/◌}
use Prim.Native.Char.{code}
use Prim.Native.String.{count}
use code_caller.Prelude.{
  ℕ, zero, suc, ◌+◌, ◌-◌, ◌*◌, ◌%◌, String, ◌<>◌, Bool, ◌&&◌, ◌||◌, Option, none, some, List, [],
  ◌∷◌, ◌==◌, leb, if◌then◌else◌,
}

abbrev digit_text : ℕ → String
digit_text zero = "0"
digit_text (suc zero) = "1"
digit_text (suc (suc zero)) = "2"
digit_text (suc (suc (suc zero))) = "3"
digit_text (suc (suc (suc (suc zero)))) = "4"
digit_text (suc (suc (suc (suc (suc zero))))) = "5"
digit_text (suc (suc (suc (suc (suc (suc zero)))))) = "6"
digit_text (suc (suc (suc (suc (suc (suc (suc zero))))))) = "7"
digit_text (suc (suc (suc (suc (suc (suc (suc (suc zero)))))))) = "8"
digit_text _ = "9"

-- The decimal text of a number below `10 ^ fuel`, in front of `rest`.
decimal_from : ℕ → ℕ → String → String
decimal_from zero n rest = rest
decimal_from (suc fuel) n rest =
    let more = decimal_from fuel (n / 10) (digit_text (n % 10) <> rest) in
    if n / 10 == 0 then digit_text (n % 10) <> rest else more

-- `n.toString()`; a number has fewer digits than `n + 1`.
unfoldable pub decimal : ℕ → String
unfolding decimal_from
decimal n = decimal_from (suc n) n ""

zeros : ℕ → String
zeros zero = ""
zeros (suc k) = "0" <> zeros k

-- `s.padStart(width, '0')`
unfoldable pub pad_start : ℕ → String → String
unfolding zeros
pad_start width s = zeros (width - count s) <> s

-- `s.split(':')`, with the part that is being read.
unfoldable pub split_from : String → String → List String
split_from part String.[] = part ∷ []
split_from part (String.◌∷◌ c s) =
    if code c == b':' then part ∷ split_from "" s else split_from (part <> String.◌∷◌ c String.[]) s

unfoldable pub split_colon : String → List String
unfolding split_from
split_colon s = split_from "" s

-- `s.slice(0, n)`
unfoldable pub take_chars : ℕ → String → String
take_chars zero s = ""
take_chars (suc n) String.[] = ""
take_chars (suc n) (String.◌∷◌ c s) = String.◌∷◌ c (take_chars n s)

-- `parts.join(separator)`
unfoldable pub join : String → List String → String
join sep [] = ""
join sep (s ∷ []) = s
join sep (s ∷ t ∷ l) = s <> (sep <> join sep (t ∷ l))

-- White space as `parseInt` and `trim` skip it.
abbrev pub is_space : ℕ → Bool
is_space c =
    (leb 9 c && leb c 13)
    || c == 32
    || c == 0xa0
    || c == 0x1680
    || (leb 0x2000 c && leb c 0x200a)
    || c == 0x2028
    || c == 0x2029
    || c == 0x202f
    || c == 0x205f
    || c == 0x3000
    || c == 0xfeff

abbrev pub is_digit : ℕ → Bool
is_digit c = leb b'0' c && leb c b'9'

abbrev pub shift : Option ℕ → ℕ → Option ℕ
shift none d = some d
shift (some n) d = some (n * 10 + d)

-- The number that the leading digits stand for, if there is a digit.
leading_digits : Option ℕ → String → Option ℕ
leading_digits acc String.[] = acc
leading_digits acc (String.◌∷◌ c s) =
    if is_digit (code c) then leading_digits (shift acc (code c - b'0')) s else acc

-- `Number.parseInt(s, 10)` where it is a positive number, and `none` where it is NaN, zero or
-- negative. The numbers are exact, as they are in the source below 2 ^ 53.
abbrev positive : Option ℕ → Option ℕ
positive none = none
positive (some zero) = none
positive (some (suc n)) = some (suc n)

unfoldable pub parse_positive : String → Option ℕ
unfolding leading_digits
parse_positive String.[] = none
parse_positive (String.◌∷◌ c s) =
    if is_space (code c)
    then parse_positive s
    else if code c == b'+'
    then positive (leading_digits none s)
    else if code c == b'-'
    then none
    else positive (leading_digits none (String.◌∷◌ c s))
