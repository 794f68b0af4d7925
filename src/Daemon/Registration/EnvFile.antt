-- ===== src/Daemon/Registration/EnvFile.antt =====
-- agent-daemon/src/register.js: the lines `KEY=value` of the daemon's file of settings.
pub mod Upserts
use code_caller.Prelude.{
  ℕ, Bool, true, false, not, ◌&&◌, ◌||◌, Option, none, some, is_some, List, [], ◌∷◌, ◌++◌, ◌==◌,
  leb, map, if◌then◌else◌,
}
use code_caller.Units.{Text, codes, is_empty, text_eq, filter, lines, join}

unfoldable pub find_value : Text → List (Text × Text) → Option Text
unfolding text_eq
find_value key [] = none
find_value key ((k, v) ∷ l) = let rest = find_value key l in if text_eq k key then some v else rest

-- `[A-Z0-9_]`
abbrev is_key_unit : ℕ → Bool
is_key_unit c = (leb 65 c && leb c 90) || ((leb 48 c && leb c 57) || c == 95)

-- The units before the first `=`, when all of them belong to a key.
unfoldable pub key_before : Text → Option Text
key_before [] = none
key_before (c ∷ s) =
    let rest = key_before s in
    if c == 61
    then some []
    else if is_key_unit c
    then elim rest [ none ↦ none | some k ↦ some (c ∷ k) ]
    else none

-- `/^([A-Z0-9_]+)=/`
unfoldable pub key_of : Text → Option Text
unfolding key_before
key_of line = elim (key_before line) [ none ↦ none | some k ↦ if is_empty k then none else some k ]

abbrev pub setting_line : Text → Text → Text
setting_line key value = key ++ codes "=" ++ value

-- A line of the file, rewritten if its key has a new value.
unfoldable pub updated_line : List (Text × Text) → Text → Text
unfolding key_of find_value
updated_line updates line = elim (key_of line) [
  | none ↦ line
  | some k ↦ elim (find_value k updates) [ none ↦ line | some v ↦ setting_line k v ]
]

abbrev has_key : Text → Text → Bool
has_key key line = elim (key_of line) [ none ↦ false | some k ↦ text_eq k key ]

-- `seen.has(key)`
unfoldable pub seen : Text → List Text → Bool
unfolding key_of text_eq
seen key [] = false
seen key (line ∷ l) = has_key key line || seen key l

-- the settings that no line had
unfoldable pub added_lines : List Text → List (Text × Text) → List Text
unfolding seen
added_lines existing [] = []
added_lines existing ((k, v) ∷ l) =
    let rest = added_lines existing l in if seen k existing then rest else setting_line k v ∷ rest

-- the lines that `upsertEnv` writes
unfoldable pub upserted_lines : List (Text × Text) → List Text → List Text
unfolding updated_line added_lines filter
upserted_lines updates existing =
    filter (λ line. not (is_empty line))
      (map (updated_line updates) existing ++ added_lines existing updates)

-- The new content of the file, from the old one if there is a file.
unfoldable pub upsert_env : List (Text × Text) → Option Text → Text
unfolding upserted_lines lines join
upsert_env updates file =
    join (codes "\n") (upserted_lines updates (elim file [ none ↦ [] | some text ↦ lines text ]))
    ++ codes "\n"
