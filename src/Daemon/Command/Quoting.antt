-- ===== src/Daemon/Command/Quoting.antt =====
-- How a shell reads what `shellEscape` writes.
use code_caller.Prelude.{
  ℕ, ◌≡◌, sym, ◌∙◌, ap, Bool, ◌||◌, Option, none, some, [], ◌∷◌, ◌++◌, ◌==◌, arith, if◌then◌else◌,
}
use code_caller.Units.{Text, codes, replace_all, replace_from}
use code_caller.Daemon.Command.{shell_escape}
use mathlib.Core.List.{append_assoc, append-nil}

-- A reader of one word in the manner of a POSIX shell: single quotes, double quotes, and the
-- backslash outside of single quotes. A word ends at a blank or an operator; where the shell would
-- expand what it reads (`$` and the backquote, also within double quotes) and where another
-- character is special, the reader gives up.
pub data Mode : Type 0 where
  plain quoted escaped doubled doubled_escaped : Mode

abbrev ends_word : ℕ → Bool
ends_word c =
    c == b' '
    || c == b'\t'
    || c == b'\n'
    || c == b';'
    || c == b'&'
    || c == b'|'
    || c == b'<'
    || c == b'>'
    || c == b'('
    || c == b')'

abbrev is_special : ℕ → Bool
is_special c =
    c == b'$'
    || c == b'`'
    || c == b'*'
    || c == b'?'
    || c == b'['
    || c == b'#'
    || c == b'~'
    || c == b'='
    || c == b'%'

abbrev expands : ℕ → Bool
expands c = c == b'$' || c == b'`'

-- What a backslash takes with it within double quotes; before another character it stands for
-- itself.
abbrev taken : ℕ → Text
taken c =
    if c == b'\n'
    then []
    else if expands c || (c == b'"' || c == b'\\')
    then c ∷ []
    else b'\\' ∷ c ∷ []

unfoldable pub read_word : Mode → Text → Text → Option (Text × Text)
read_word plain out [] = some (out, [])
read_word plain out (c ∷ s) =
    let quote = read_word quoted out s in
    let escape = read_word escaped out s in
    let double = read_word doubled out s in
    let add = read_word plain (out ++ c ∷ []) s in
    if c == b'\''
    then quote
    else if c == b'"'
    then double
    else if c == b'\\'
    then escape
    else if ends_word c
    then some (out, c ∷ s)
    else if is_special c
    then none
    else add
read_word quoted out [] = none
read_word quoted out (c ∷ s) =
    let close = read_word plain out s in
    let add = read_word quoted (out ++ c ∷ []) s in if c == b'\'' then close else add
read_word doubled out [] = none
read_word doubled out (c ∷ s) =
    let close = read_word plain out s in
    let escape = read_word doubled_escaped out s in
    let add = read_word doubled (out ++ c ∷ []) s in
    if c == b'"' then close else if c == b'\\' then escape else if expands c then none else add
read_word doubled_escaped out [] = none
read_word doubled_escaped out (c ∷ s) = read_word doubled (out ++ taken c) s
read_word escaped out [] = none
read_word escaped out (c ∷ s) = read_word plain (if c == b'\n' then out else out ++ c ∷ []) s

read_quoted :
    (value out rest : Text)
    → read_word quoted out (replace_from 0 (codes "'") (codes "'\\''") value ++ (b'\'' ∷ rest))
      ≡ read_word plain (out ++ value) rest
unfolding read_word replace_from
read_quoted [] out rest = ap (λ o. read_word plain o rest) (sym (append-nil out))
read_quoted (c ∷ value) out rest =
    ground (arith, read_quoted value (out ++ c ∷ []) rest, append_assoc out (c ∷ []) value)

module _ (value out rest : Text) where
  read_plain :
      read_word plain out (shell_escape value ++ rest) ≡ read_word plain (out ++ value) rest
  unfolding shell_escape replace_all read_word
  read_plain =
      ap (read_word quoted out)
        (append_assoc (replace_from 0 (codes "'") (codes "'\\''") value) (codes "'") rest)
      ∙ read_quoted value out rest

  read_doubled : read_word doubled out (shell_escape (b'$' ∷ value) ++ rest) ≡ none
  unfolding shell_escape replace_all replace_from read_word
  read_doubled = ground arith

  -- A reader of words in the manner of a POSIX shell that is outside of quotes reads a value that
  -- `shellEscape` quoted as exactly that value, whatever the value holds, and is then outside of
  -- quotes again. Within double quotes the quoting does not hold: of a quoted value that begins
  -- with a dollar, the reader comes to the dollar, which a shell expands there.
  pub read_word-shell_escape :
      (read_word plain out (shell_escape value ++ rest) ≡ read_word plain (out ++ value) rest)
      × (read_word doubled out (shell_escape (b'$' ∷ value) ++ rest) ≡ none)
  read_word-shell_escape = (read_plain, read_doubled)
