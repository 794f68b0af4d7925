-- ===== src/Daemon/Config.antt =====
-- agent-daemon/src/config.js: the settings of the daemon.
use code_caller.Prelude.{
  ℕ, ◌+◌, ◌-◌, ◌*◌, Bool, true, false, not, ◌&&◌, Option, none, some, [], ◌∷◌, ◌==◌, if◌then◌else◌,
}
use code_caller.Text.{is_digit}
use code_caller.Units.{Text, codes, is_empty, text_eq, trim, trim_start, is_blank}
use code_caller.Daemon.Command.{default_command_template}

-- `process.env`, or the options of a command line
abbrev pub Variables : Type 0
Variables = Text → Option Text

-- A number of at most 2 ^ 53, as `parseInt` reads it.
pub record Whole : Type 0 where
  pub is_negative : Bool
  pub magnitude : ℕ

pub record Settings : Type 0 where
  pub hub_url : Text
  pub api_key : Text
  pub server_id : Text
  pub command_template : Text
  pub cwd : Text
  pub use_shell : Bool
  pub heartbeat_interval_ms : Whole
  pub debug_socket : Bool

-- The module throws an error when a variable is missing.
pub data Loaded : Type 0 where
  missing : Text → Loaded
  loaded : Settings → Loaded

-- `value || fallback`
abbrev pub or_else : Option Text → Text → Text
or_else none fallback = fallback
or_else (some value) fallback = if is_empty value then fallback else value

-- `required`, without the error's text
unfoldable pub required : Variables → Text → Option Text
required env name = elim (env name) [
  | none ↦ none
  | some value ↦ if is_blank value then none else some (trim value)
]

-- The decimal digits at the start, read after others.
unfoldable pub digits_after : ℕ → Text → ℕ
digits_after n [] = n
digits_after n (c ∷ s) = elim (is_digit c) [ true ↦ digits_after (n * 10 + (c - 48)) s | false ↦ n ]

unfoldable pub digits : Text → Option ℕ
unfolding digits_after
digits [] = none
digits (c ∷ s) = if is_digit c then some (digits_after (c - 48) s) else none

abbrev signed : Bool → Option ℕ → Option Whole
signed is_negative none = none
signed is_negative (some n) = some (record { is_negative = is_negative; magnitude = n })

abbrev unsigned_or_signed : Text → Option Whole
unsigned_or_signed [] = none
unsigned_or_signed (c ∷ s) =
    if c == 45
    then signed true (digits s)
    else if c == 43
    then signed false (digits s)
    else signed false (digits (c ∷ s))

-- `Number.parseInt(raw, 10)`, `none` for NaN
unfoldable pub parse_int : Text → Option Whole
unfolding digits trim_start
parse_int s = unsigned_or_signed (trim_start s)

abbrev whole_or : Whole → Option Whole → Whole
whole_or fallback none = fallback
whole_or fallback (some n) = n

unfoldable pub int : Variables → Text → Whole → Whole
unfolding parse_int
int env name fallback = elim (env name) [
  | none ↦ fallback
  | some raw ↦ if is_empty raw then fallback else whole_or fallback (parse_int raw)
]

abbrev pub natural : ℕ → Whole
natural n = record { is_negative = false; magnitude = n }

abbrev is_one : Whole → Bool
is_one n = not n.is_negative && n.magnitude == 1

-- What the module exports, with the directory that the process stands in.
unfoldable pub load : Text → Variables → Loaded
unfolding required int
load directory env = elim (required env (codes "HUB_URL")) [
  | none ↦ missing (codes "HUB_URL")
  | some hub_url ↦ elim (required env (codes "API_KEY")) [
    | none ↦ missing (codes "API_KEY")
    | some api_key ↦ loaded (record {
      hub_url = hub_url;
      api_key = api_key;
      server_id = or_else (env (codes "SERVER_ID")) (codes "daemon");
      command_template = or_else (env (codes "CODEX_COMMAND_TEMPLATE")) default_command_template;
      cwd = or_else (env (codes "CODEX_EXEC_CWD")) directory;
      use_shell = text_eq (or_else (env (codes "CODEX_USE_SHELL")) (codes "0")) (codes "1");
      heartbeat_interval_ms = int env (codes "HEARTBEAT_INTERVAL_MS") (natural 30000);
      debug_socket = is_one (int env (codes "DEBUG_SOCKET") (natural 0));
    })
  ]
]
