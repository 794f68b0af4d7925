-- ===== src/Daemon/Registration.antt =====
-- agent-daemon/src/register.js: the program that asks the hub to register this server.
pub mod EnvFile
pub mod Polling
use code_caller.Prelude.{
  ℕ, zero, suc, ◌+◌, Bool, true, false, not, ◌&&◌, ◌||◌, Option, none, some, List, [], ◌∷◌, ◌++◌,
  ◌<◌, ltb, if◌then◌else◌,
}
use code_caller.Units.{Text, codes, is_empty, text_eq, has_prefix, drop, after, join}
use code_caller.Daemon.Config.{Variables, or_else}
use code_caller.Daemon.Registration.EnvFile.{find_value, upsert_env}

-- The options of the command line: `help`, and the others.
pub record Options : Type 0 where
  pub help : Bool
  pub values : List (Text × Text)

abbrev is_help : Text → Bool
is_help item = text_eq item (codes "--help") || text_eq item (codes "-h")

-- `args[key] = value`; a later value counts, so it stands in front.
abbrev set_option : Text → Text → Options → Options
set_option key value o = record o { values = (key, value) ∷ o.values }

-- the loop of `parseArgs`
unfoldable pub parse_from : List Text → Options → Options
parse_from [] o = o
parse_from (item ∷ []) o =
    if is_help item
    then record o { help = true }
    else if has_prefix (codes "--") item
    then set_option (drop 2 item) (codes "1") o
    else o
parse_from (item ∷ next ∷ l) o = elim (is_help item) [
  | true ↦ parse_from (next ∷ l) (record o { help = true })
  | false ↦ elim (has_prefix (codes "--") item) [
    | true ↦ elim (is_empty next || has_prefix (codes "--") next) [
      | true ↦ parse_from (next ∷ l) (set_option (drop 2 item) (codes "1") o)
      | false ↦ parse_from l (set_option (drop 2 item) next o)
    ]
    | false ↦ parse_from (next ∷ l) o
  ]
]

unfoldable pub parse_args : List Text → Options
unfolding parse_from text_eq after drop
parse_args argv = parse_from argv (record { help = false; values = [] })

pub record NetworkAddress : Type 0 where
  pub family : Text
  pub internal : Bool
  pub address : Text

-- What the program reads of the machine.
pub record Machine : Type 0 where
  pub platform : Text
  pub arch : Text
  pub hostname : Text
  pub interfaces : List (List NetworkAddress)
  pub variables : Variables

unfoldable pub detect_os_type : Text → Text
unfolding text_eq
detect_os_type platform =
    if text_eq platform (codes "darwin")
    then codes "MACOS"
    else if text_eq platform (codes "win32")
    then codes "WINDOWS"
    else codes "UBUNTU"

-- the first address of an interface that `detectIp` wants
unfoldable pub external_address : List NetworkAddress → Option Text
unfolding text_eq
external_address [] = none
external_address (a ∷ l) =
    if text_eq a.family (codes "IPv4") && not a.internal then some a.address else external_address l

unfoldable pub detect_ip : List (List NetworkAddress) → Text
unfolding external_address
detect_ip [] = codes "127.0.0.1"
detect_ip (items ∷ l) =
    let rest = detect_ip l in elim (external_address items) [ none ↦ rest | some address ↦ address ]

pub record RequestInput : Type 0 where
  pub hub_url : Text
  pub owner_email : Text
  pub name : Text
  pub os_type : Text
  pub tailscale_ip : Text

-- What the fingerprint is the hash of.
unfoldable pub fingerprint_source : Machine → RequestInput → Text
unfolding join
fingerprint_source machine input =
    join (codes "|")
      (input.name ∷ input.os_type ∷ input.tailscale_ip ∷ machine.arch ∷ machine.platform ∷ [])

abbrev pub default_hub_url : Text
default_hub_url = codes "http://172.30.1.83:3000"

abbrev pub default_owner_email : Text
default_owner_email = codes "admin@example.com"

-- `args[option] || process.env[variable] || fallback`
abbrev chosen : Options → Machine → Text → Text → Text → Text
chosen o machine option variable fallback =
    or_else (find_value option o.values) (or_else (machine.variables variable) fallback)

unfoldable pub request_input : Options → Machine → RequestInput
unfolding detect_os_type detect_ip find_value
request_input o machine = record {
  hub_url = chosen o machine (codes "hub") (codes "HUB_URL") default_hub_url;
  owner_email = chosen o machine (codes "owner-email") (codes "OWNER_EMAIL") default_owner_email;
  name = chosen o machine (codes "name") (codes "SERVER_NAME") machine.hostname;
  os_type = chosen o machine (codes "os-type") (codes "OS_TYPE") (detect_os_type machine.platform);
  tailscale_ip =
      chosen o machine (codes "tailscale-ip") (codes "TAILSCALE_IP") (detect_ip machine.interfaces);
}
