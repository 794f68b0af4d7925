-- ===== src/Daemon/Patterns.antt =====
-- The regular expressions that agent-daemon/src uses, with a matcher: without the flags `s`, `m`,
-- `u`, and with `i` written out in the letters.
use code_caller.Prelude.{
  ℕ, ◌+◌, String, Bool, true, false, not, ◌&&◌, ◌||◌, Option, none, some, List, [], ◌∷◌, ◌==◌, leb,
}
use code_caller.Text.{is_space, is_digit}
use code_caller.Units.{Text, codes}

-- `many p` is `[…]*` for a class of units, `edge` is `\b` and `last` is `$`.
pub data Pattern : Type 0 where
  empty edge last : Pattern
  one many : (ℕ → Bool) → Pattern
  seq alt : Pattern → Pattern → Pattern

infixr 45 ◌then◌
abbrev pub ◌then◌ : Pattern → Pattern → Pattern
a then b = seq a b

abbrev pub is_word : ℕ → Bool
is_word c = is_digit c || (leb b'a' c && leb c b'z') || (leb b'A' c && leb c b'Z') || c == b'_'

abbrev pub is_word_at : Option ℕ → Bool
is_word_at none = false
is_word_at (some c) = is_word c

abbrev pub first : Text → Option ℕ
first [] = none
first (c ∷ s) = some c

abbrev pub differs : Bool → Bool → Bool
differs true b = not b
differs false b = b

-- What is left to match at a place, given the unit before it.
abbrev pub Rest : Type 0
Rest = Option ℕ → Text → Bool

unfoldable pub match_many : (ℕ → Bool) → Rest → Rest
match_many p k before [] = k before []
match_many p k before (c ∷ s) =
    let more = match_many p k (some c) s in k before (c ∷ s) || (p c && more)

unfoldable pub match_one : (ℕ → Bool) → Rest → Rest
match_one p k before [] = false
match_one p k before (c ∷ s) = p c && k (some c) s

abbrev pub at_end : Text → Bool
at_end [] = true
at_end (c ∷ s) = false

unfoldable pub matches : Pattern → Rest → Rest
unfolding match_many match_one
matches empty k before s = k before s
matches edge k before s = differs (is_word_at before) (is_word_at (first s)) && k before s
matches last k before s = at_end s && k before s
matches (one p) k before s = match_one p k before s
matches (many p) k before s = match_many p k before s
matches (seq a b) k before s = matches a (matches b k) before s
matches (alt a b) k before s =
    let left = matches a k before s in let right = matches b k before s in left || right

unfoldable pub found_from : Pattern → Option ℕ → Text → Bool
unfolding matches
found_from r before [] = matches r (λ _ _. true) before []
found_from r before (c ∷ s) =
    let further = found_from r (some c) s in matches r (λ _ _. true) before (c ∷ s) || further

-- `r.test(s)`
unfoldable pub found : Pattern → Text → Bool
unfolding found_from
found r s = found_from r none s

unfoldable pub found_any : List Pattern → Text → Bool
unfolding found
found_any [] s = false
found_any (r ∷ l) s = let others = found_any l s in found r s || others

-- A letter in either case, for a lower-case letter; any other unit as it is.
abbrev pub letter : ℕ → ℕ → Bool
letter p c = c == p || (leb b'a' p && leb p b'z' && c + 32 == p)

abbrev pub word_of : Text → Pattern
word_of [] = empty
word_of (c ∷ s) = seq (one (letter c)) (word_of s)

abbrev pub word : String → Pattern
word s = word_of (codes s)

abbrev pub opt : Pattern → Pattern
opt r = alt r empty

abbrev pub spaces : Pattern
spaces = many is_space

-- `.*`
abbrev pub anything : Pattern
anything = many (λ c. not (c == 10 || c == 13 || c == 0x2028 || c == 0x2029))

abbrev pub any_of : List Pattern → Pattern
any_of [] = empty
any_of (r ∷ []) = r
any_of (r ∷ s ∷ l) = alt r (any_of (s ∷ l))
