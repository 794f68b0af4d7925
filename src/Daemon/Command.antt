-- ===== src/Daemon/Command.antt =====
-- agent-daemon/src/runner.js: how the command of a task is made from the template.
pub mod Quoting
pub mod Arguments
use code_caller.Prelude.{
  ℕ, zero, suc, ◌-◌, Bool, true, false, not, ◌&&◌, ◌||◌, Option, none, some, List, [], ◌∷◌, ◌++◌,
  ◌==◌, leb, map, length, if◌then◌else◌,
}
use code_caller.Text.{is_space}
use code_caller.Units.{Text, codes, is_empty, has_prefix, replace_all}

abbrev pub quote : ℕ
quote = b'"'

abbrev flush : Text → List Text → List Text
flush current l = if is_empty current then l else current ∷ l

-- The loop of `tokenize`, given whether the unit before is a backslash that takes this one with it.
unfoldable pub tokenize_from : Bool → Bool → Text → Text → List Text
tokenize_from taken in_quotes current [] = flush current []
tokenize_from true in_quotes current (c ∷ s) = tokenize_from false in_quotes (current ++ c ∷ []) s
tokenize_from false in_quotes current (c ∷ s) =
    let escape = tokenize_from true in_quotes (current ++ c ∷ []) s in
    let turn = tokenize_from false (not in_quotes) (current ++ c ∷ []) s in
    let next = tokenize_from false in_quotes [] s in
    let add = tokenize_from false in_quotes (current ++ c ∷ []) s in
    if c == b'\\'
    then escape
    else if c == quote
    then turn
    else if is_space c && not in_quotes
    then flush current next
    else add

unfoldable pub tokenize : Text → List Text
unfolding tokenize_from
tokenize template = tokenize_from false false [] template

-- `token.slice(0, -1)`, where it ends in a quote
unfoldable pub drop_quote : Text → Option Text
drop_quote [] = none
drop_quote (c ∷ []) = if c == quote then some [] else none
drop_quote (c ∷ d ∷ s) = elim (drop_quote (d ∷ s)) [ none ↦ none | some t ↦ some (c ∷ t) ]

-- what stands between the outer quotes, if both are there
abbrev pub between_quotes : Text → Option Text
between_quotes [] = none
between_quotes (c ∷ s) = if c == quote then drop_quote s else none

-- `stripOuterQuotes`
unfoldable pub strip_outer_quotes : Text → Text
unfolding drop_quote replace_all
strip_outer_quotes token = elim (between_quotes token) [
  | some inner ↦ inner
  | none ↦ replace_all (codes "\"") [] token
]

-- `shellEscape`
unfoldable pub shell_escape : Text → Text
unfolding replace_all
shell_escape value = codes "'" ++ (replace_all (codes "'") (codes "'\\''") value ++ codes "'")

-- The values that stand for `{{prompt}}`, `{{input}}` and `{{cwd}}`.
pub record Placeholders : Type 0 where
  pub prompt : Text
  pub input : Text
  pub cwd : Text

-- `substitute`, and the loop of the shell's command: one placeholder after the other
unfoldable pub substitute : Text → Placeholders → Text
unfolding replace_all
substitute token p =
    replace_all (codes "{{cwd}}") p.cwd
      (replace_all (codes "{{input}}") p.input (replace_all (codes "{{prompt}}") p.prompt token))

abbrev pub escaped : Placeholders → Placeholders
escaped p = record {
  prompt = shell_escape p.prompt;
  input = shell_escape p.input;
  cwd = shell_escape p.cwd;
}

pub record SpawnPlan : Type 0 where
  pub shell : Bool
  pub command : Text
  pub args : List Text

abbrev pub direct_plan : List Text → Option SpawnPlan
direct_plan [] = none
direct_plan (t ∷ l) = some (record { shell = false; command = t; args = l })

-- `buildSpawnPlan`; `none` is its exception
unfoldable pub build_spawn_plan : Bool → Text → Placeholders → Option SpawnPlan
unfolding tokenize strip_outer_quotes substitute shell_escape
build_spawn_plan use_shell template p =
    if use_shell
    then some (record { shell = true; command = substitute template (escaped p); args = [] })
    else direct_plan (map (λ t. strip_outer_quotes (substitute t p)) (tokenize template))

-- `DEFAULT_COMMAND_TEMPLATE` of agent-daemon/src/config.js
abbrev pub default_command_template : Text
default_command_template = codes "codex exec \"{{prompt}}\""
