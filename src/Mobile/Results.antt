-- ===== src/Mobile/Results.antt =====
-- How the app words the prompt and the result of a task (mobile-app/App.tsx). `JSON.stringify` is a
-- parameter.
use code_caller.Prelude.{
  ℕ, zero, suc, Bool, true, false, ◌&&◌, ◌||◌, Option, none, some, [], ◌∷◌, ◌==◌, leb,
  if◌then◌else◌,
}
use code_caller.Text.{is_space}
use code_caller.Units.{Text, codes, is_empty, text_eq, has_prefix, trim, replace_all, after}

mutual
  pub data Value : Type 0 where
    null : Value
    string : Text → Value
    other : Bool → Value
    object : Fields → Value

  pub data Fields : Type 0 where
    no_field : Fields
    field : Text → Value → Fields → Fields

unfoldable pub find_field : Text → Fields → Option Value
unfolding text_eq
find_field name no_field = none
find_field name (field n v fields) =
    let rest = find_field name fields in if text_eq n name then some v else rest

-- a line terminator of regular expressions
abbrev is_break : ℕ → Bool
is_break c = c == 10 || c == 13 || c == 0x2028 || c == 0x2029

-- `[a-zA-Z0-9_-]`
abbrev is_language : ℕ → Bool
is_language c =
    (leb b'a' c && leb c b'z')
    || (leb b'A' c && leb c b'Z')
    || (leb b'0' c && leb c b'9')
    || c == b'_'
    || c == b'-'

abbrev fence : Text
fence = codes "```"

-- Where the removal of opening fences stands: at the start of a line or within one, within the marks
-- of a fence (so many are still to pass), in the name after it, or in the space after that, with
-- whether the unit before was a line terminator.
pub data Place : Type 0 where
  line_start within name : Place
  marks : ℕ → Place
  space : (after_break : Bool) → Place

abbrev place_after : ℕ → Place
place_after c = if is_break c then line_start else within

-- What is done with a unit: whether it stays, and the place after it.
abbrev pub scan : Place → Text → ℕ → Bool × Place
scan line_start s c = if has_prefix fence s then (false, marks 1) else (true, place_after c)
scan within s c = (true, place_after c)
scan (marks zero) s c = (false, name)
scan (marks (suc n)) s c = (false, marks n)
scan name s c =
    if is_language c
    then (false, name)
    else if is_space c
    then (false, space (is_break c))
    else (true, place_after c)
scan (space after_break) s c =
    if is_space c
    then (false, space (is_break c))
    else if after_break && has_prefix fence s
    then (false, marks 1)
    else (true, place_after c)

-- `.replace(/^```[a-zA-Z0-9_-]*\s*/gm, '')`, from a place on
unfoldable pub drop_openings : Place → Text → Text
unfolding after
drop_openings place [] = []
drop_openings place (c ∷ s) =
    let (stays, next) = scan place (c ∷ s) c in
    let rest = drop_openings next s in if stays then c ∷ rest else rest

abbrev ends_line : Text → Bool
ends_line [] = true
ends_line (c ∷ s) = is_break c

-- a fence that ends its line
abbrev is_closing : Text → Bool
is_closing s = elim (after fence s) [ none ↦ false | some rest ↦ ends_line rest ]

-- `.replace(/```$/gm, '')`, with the number of units of a fence that are still to pass
unfoldable pub drop_closings : ℕ → Text → Text
unfolding after
drop_closings skip [] = []
drop_closings (suc skip) (c ∷ s) = drop_closings skip s
drop_closings zero (c ∷ s) = if is_closing (c ∷ s) then drop_closings 2 s else c ∷ drop_closings 0 s

-- `readableText`
unfoldable pub readable_text : Text → Text
unfolding replace_all drop_openings drop_closings trim
readable_text value =
    let lines =
      replace_all (codes "\\n") (codes "\n") (replace_all (codes "\\r\\n") (codes "\n") value) in
    trim (drop_closings 0 (drop_openings line_start (replace_all (codes "\\t") (codes "\t") lines)))

module _ (stringify : Value → Text) where
  -- `summarize`
  abbrev pub summarize_value : Value → Text
  summarize_value null = []
  summarize_value (string s) = s
  summarize_value v = stringify v

  abbrev prompt_or : Value → Option Value → Text
  prompt_or input none = summarize_value input
  prompt_or input (some prompt) = summarize_value prompt

  -- `extractPrompt`
  unfoldable pub extract_prompt : Value → Text
  unfolding find_field
  extract_prompt (object fields) = prompt_or (object fields) (find_field (codes "prompt") fields)
  extract_prompt input = summarize_value input

  abbrev no_result : Text
  no_result = codes "아직 결과가 없습니다."

  -- `a ?? b`
  abbrev or_value : Option Value → Value → Value
  or_value none b = b
  or_value (some null) b = b
  or_value (some v) b = v

  -- the field that is preferred, or `null`
  abbrev pub preferred : Fields → Value
  preferred fields = or_value (find_field (codes "lastChunk") fields) (
      or_value (find_field (codes "output") fields) (
        or_value (find_field (codes "text") fields)
          (or_value (find_field (codes "result") fields) null)))

  abbrev text_or : Value → Value → Text
  text_or whole (string s) = readable_text s
  text_or whole v = readable_text (summarize_value whole)

  -- `extractResult`
  unfoldable pub extract_result : Value → Text
  unfolding readable_text find_field
  extract_result null = no_result
  extract_result (string s) = if is_empty s then no_result else readable_text s
  extract_result (other false) = no_result
  extract_result (other true) = readable_text (summarize_value (other true))
  extract_result (object fields) = text_or (object fields) (preferred fields)
