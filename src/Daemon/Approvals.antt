-- ===== src/Daemon/Approvals.antt =====
-- agent-daemon/src/approval-detector.js
pub mod Reasons
use code_caller.Prelude.{
  ℕ, zero, suc, ◌-◌, ◌+◌, Bool, true, false, not, ◌&&◌, ◌||◌, Option, none, some, List, [], ◌∷◌,
  ◌++◌, ◌==◌, leb, ltb, length, if◌then◌else◌,
}
use code_caller.Text.{is_space, is_digit}
use code_caller.Units.{Text, codes, is_empty, is_blank, take_last, trim, lines, join, filter}
use code_caller.Daemon.Patterns.{
  Pattern, ◌then◌, edge, last, one, word, opt, spaces, anything, any_of, found_any,
}

abbrev slash_n : Pattern
slash_n = word "/n"

-- `CONFIRM_MARKERS`
abbrev pub confirm_markers : List Pattern
confirm_markers =
    (edge then word "y" then spaces then word "/" then spaces then word "n" then edge)
    ∷ (edge then word "yes" then spaces then word "/" then spaces then word "no" then edge)
    ∷ (edge then word "yes" then slash_n then edge)
    ∷ (edge then word "y" then slash_n then opt (word "es") then edge)
    ∷ (edge
        then any_of (word "approve" ∷ word "allow" ∷ word "permit" ∷ word "confirm" ∷ [])
        then edge
        then anything
        then word "?"
        then spaces
        then last)
    ∷ (edge
        then any_of (word "proceed" ∷ word "continue" ∷ [])
        then edge
        then anything
        then word "?"
        then spaces
        then last)
    ∷ (word "?"
        then spaces
        then any_of (word "(y/n)" ∷ word "[y/n]" ∷ word "y/n" ∷ [])
        then spaces
        then last)
    ∷ (edge
        then word "do you want "
        then opt (word "to ")
        then opt (word "to ")
        then any_of (word "continue" ∷ word "proceed" ∷ word "run" ∷ word "execute" ∷ [])
        then edge
        then anything
        then word "?")
    ∷ (edge then word "are you sure" then edge then anything then word "?")
    ∷ (edge
        then word "suggested "
        then opt (word "shell ")
        then word "command"
        then edge
        then anything
        then word "?")
    ∷ []

-- `[0-9;?]` and `[a-zA-Z]`
abbrev is_parameter : ℕ → Bool
is_parameter c = is_digit c || c == b';' || c == b'?'

abbrev is_letter : ℕ → Bool
is_letter c = (leb b'a' c && leb c b'z') || (leb b'A' c && leb c b'Z')

-- How many units the parameters and the letter that ends a sequence take.
sequence_end : Text → Option ℕ
sequence_end [] = none
sequence_end (c ∷ s) =
    let rest = sequence_end s in
    if is_parameter c
    then elim rest [ none ↦ none | some n ↦ some (suc n) ]
    else if is_letter c
    then some 1
    else none

-- how many units follow the first of an escape sequence that starts here
escape_length : Text → Option ℕ
unfolding sequence_end
escape_length (e ∷ b ∷ s) =
    if e == 27 && b == b'['
    then elim (sequence_end s) [ none ↦ none | some n ↦ some (suc n) ]
    else none
escape_length _ = none

strip_from : ℕ → Text → Text
unfolding escape_length
strip_from skip [] = []
strip_from (suc skip) (c ∷ s) = strip_from skip s
strip_from zero (c ∷ s) = elim (escape_length (c ∷ s)) [
  | none ↦ c ∷ strip_from 0 s
  | some n ↦ strip_from n s
]

-- `stripAnsi`
unfoldable pub strip_ansi : Text → Text
unfolding strip_from
strip_ansi s = strip_from 0 s

-- `replace(/\s+/g, ' ')`, given whether the unit before was a space
collapse : Bool → Text → Text
collapse before [] = []
collapse before (c ∷ s) =
    let rest = collapse (is_space c) s in
    if is_space c then (if before then rest else 32 ∷ rest) else c ∷ rest

abbrev shorten : ℕ → Text → Text
shorten max s = if ltb max (length s) then 0x2026 ∷ take_last max s else s

-- `excerpt`
unfoldable pub excerpt : ℕ → Text → Text
unfolding strip_ansi lines filter join collapse trim
excerpt max s =
    let clean = join (codes " ") (filter (λ l. not (is_blank l)) (lines (strip_ansi s))) in
    shorten max (trim (collapse false clean))

abbrev last_two : List Text → List Text
last_two (a ∷ b ∷ []) = a ∷ b ∷ []
last_two (a ∷ b ∷ c ∷ l) = b ∷ c ∷ []
last_two l = l

-- The loop of `detect`, with the two lines before: the reason, if there is a prompt.
detect_line : List Text → List Text → Option Text
unfolding found_any excerpt trim
detect_line before [] = none
detect_line before (s ∷ l) =
    let further = detect_line (last_two (before ++ s ∷ [])) l in
    if not (is_blank s) && found_any confirm_markers (trim s)
    then some (excerpt 240 (join (codes "\n") (before ++ s ∷ [])))
    else further

unfoldable pub detect : Text → Option Text
unfolding strip_ansi lines detect_line
detect chunk =
    if is_blank (strip_ansi chunk) then none else detect_line [] (lines (strip_ansi chunk))
