-- ===== src/Units.antt =====
-- A JavaScript string as its sequence of UTF-16 code units, and the functions on strings that the
-- daemon uses: `slice`, `trim`, `split`, `join`, `startsWith`, `includes`, `replace`.
pub mod Lengths
pub mod Equality
use Prim.Native.Char.{code}
use code_caller.Prelude.{
  ℕ, zero, suc, ◌-◌, String, Bool, true, false, ◌&&◌, Option, none, some, List, [], ◌∷◌, ◌++◌, ◌==◌,
  length, if◌then◌else◌,
}
use code_caller.Text.{is_space}

abbrev pub Text : Type 0
Text = List ℕ

-- The units of a literal, all of whose characters lie in the basic plane.
abbrev pub codes : String → Text
codes String.[] = []
codes (String.◌∷◌ c s) = code c ∷ codes s

abbrev pub is_empty : Text → Bool
is_empty [] = true
is_empty (c ∷ s) = false

unfoldable pub text_eq : Text → Text → Bool
text_eq [] [] = true
text_eq (a ∷ s) (b ∷ t) = a == b && text_eq s t
text_eq _ _ = false

unfoldable pub drop : ℕ → Text → Text
drop zero s = s
drop (suc n) [] = []
drop (suc n) (c ∷ s) = drop n s

-- `s.slice(-n)`, for a positive `n`
unfoldable pub take_last : ℕ → Text → Text
unfolding drop
take_last n s = drop (length s - n) s

unfoldable pub trim_start : Text → Text
trim_start [] = []
trim_start (c ∷ s) = if is_space c then trim_start s else c ∷ s

unfoldable pub trim_end : Text → Text
trim_end [] = []
trim_end (c ∷ s) = let rest = trim_end s in if is_space c && is_empty rest then [] else c ∷ rest

unfoldable pub trim : Text → Text
unfolding trim_start trim_end
trim s = trim_end (trim_start s)

-- `line.trim().length > 0`
abbrev pub is_blank : Text → Bool
is_blank s = is_empty (trim s)

-- the carriage return before a line feed belongs to the break
unfoldable pub drop_return : Text → Text
drop_return [] = []
drop_return (c ∷ []) = if c == 13 then [] else c ∷ []
drop_return (c ∷ d ∷ s) = c ∷ drop_return (d ∷ s)

unfoldable pub lines_from : Text → Text → List Text
unfolding drop_return
lines_from part [] = part ∷ []
lines_from part (c ∷ s) =
    if c == 10 then drop_return part ∷ lines_from [] s else lines_from (part ++ c ∷ []) s

-- `s.split(/\r?\n/)`
unfoldable pub lines : Text → List Text
unfolding lines_from
lines s = lines_from [] s

unfoldable pub join : Text → List Text → Text
join sep [] = []
join sep (s ∷ []) = s
join sep (s ∷ t ∷ l) = s ++ (sep ++ join sep (t ∷ l))

-- What stands behind a prefix, if it is one.
unfoldable pub after : Text → Text → Option Text
after [] s = some s
after (p ∷ ps) [] = none
after (p ∷ ps) (c ∷ s) = let rest = after ps s in if p == c then rest else none

abbrev pub has_prefix : Text → Text → Bool
has_prefix p s = elim (after p s) [ none ↦ false | some _ ↦ true ]

-- `s.split(part).join(by)` for a part that is not empty: `skip` units of a match are still to pass.
unfoldable pub replace_from : ℕ → Text → Text → Text → Text
unfolding after
replace_from skip part by [] = []
replace_from (suc skip) part by (c ∷ s) = replace_from skip part by s
replace_from zero part by (c ∷ s) =
    if has_prefix part (c ∷ s)
    then by ++ replace_from (length part - 1) part by s
    else c ∷ replace_from 0 part by s

unfoldable pub replace_all : Text → Text → Text → Text
unfolding replace_from
replace_all part by s = replace_from 0 part by s

unfoldable pub filter : (Text → Bool) → List Text → List Text
filter p [] = []
filter p (s ∷ l) = if p s then s ∷ filter p l else filter p l
