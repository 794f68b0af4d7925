-- ===== src/Tests/Registering.antt =====
-- The registration of a server at a concrete machine and hub.
use code_caller.Prelude.{
  ℕ, ◌≤◌, ◌≡◌, refl, true, false, String, Option, none, some, is_some, List, [], ◌∷◌, arith, ◌==◌,
  if◌then◌else◌,
}
use code_caller.Units.{Text, codes, drop, after, text_eq, filter, join, trim, trim_start, trim_end}
use code_caller.Daemon.Command.{default_command_template}
use code_caller.Daemon.Config.{
  Settings, load, loaded, missing, natural, required, int, parse_int, digits, digits_after,
}
use code_caller.Daemon.Registration.{
  parse_args, parse_from, Machine, request_input, fingerprint_source, detect_ip, external_address,
  detect_os_type,
}
use code_caller.Daemon.Registration.EnvFile.{
  find_value, upserted_lines, key_of, key_before, updated_line, added_lines, seen,
}
use code_caller.Daemon.Registration.EnvFile.Upserts.{
  setting, or_some, are_keys, all_key_units, setting-upserted_lines,
}
use code_caller.Daemon.Registration.Polling.{
  Answer, response, PollAnswer, Ticket, Turn, World, registered, poll_interval_ms, main, read_json,
  poll, poll_result, verdict, create_request,
}
use code_caller.Daemon.Registration.Polling.Settings.{WrittenBy, main-registered, main-ends}

abbrev answered : String → Answer
answered s = response (record { ok = true; status = 200; text = codes s })

abbrev ticket : Ticket
ticket = record { id = codes "7"; secret = codes "s"; expires_at = 9000 }

abbrev parse_answer : Text → Option PollAnswer
parse_answer s =
    if text_eq s (codes "yes")
    then some
        (record { status = codes "APPROVED"; api_key = some (codes "k1"); server_id = codes "3" })
    else some (record { status = codes "PENDING"; api_key = none; server_id = [] })

abbrev turns : ℕ → Turn
turns k = record { elapsed = 2600; answer = if k == 1 then answered "yes" else answered "no" }

abbrev machine : Machine
machine = record {
  platform = codes "linux";
  arch = codes "x64";
  hostname = codes "box";
  interfaces =
      (record { family = codes "IPv4"; internal = true; address = codes "127.0.0.1" } ∷ [])
      ∷ (record { family = codes "IPv4"; internal = false; address = codes "10.0.0.2" } ∷ [])
      ∷ [];
  variables = λ name. none;
}

abbrev world : World
world = record {
  machine = machine;
  env_lines = codes "# mine" ∷ codes "API_KEY=old" ∷ [];
  hash = λ s. s;
  create = λ input fingerprint. answered "{}";
  parse_ticket = λ s. some ticket;
  parse_answer = parse_answer;
  created_at = 1000;
  turns = turns;
}

abbrev argv : List Text
argv = codes "--hub" ∷ codes "http://h" ∷ codes "--name" ∷ codes "n1" ∷ []

abbrev written : List Text
written = codes "# mine" ∷ codes "API_KEY=k1" ∷ codes "HUB_URL=http://h" ∷ codes "SERVER_ID=3" ∷ []

registers : main argv world ≡ some (registered written)
unfolding main parse_args parse_from request_input find_value create_request read_json poll_result
    poll verdict upserted_lines updated_line added_lines seen key_of key_before filter text_eq after
    drop detect_ip external_address detect_os_type fingerprint_source join
registers = refl

main-registered_example :
    WrittenBy world
      (request_input (parse_args argv) machine)
      (create_request world (request_input (parse_args argv) machine))
      written
main-registered_example = main-registered argv world written registers

waits : (k : ℕ) → poll_interval_ms ≤ (turns k).elapsed
waits k = omega arith

main-ends_example : is_some (main argv world) ≡ true
main-ends_example = main-ends argv world waits

api_key_fits : are_keys ((codes "API_KEY", codes "k2") ∷ []) ≡ true
unfolding are_keys all_key_units
api_key_fits = refl

setting-upserted_lines_example :
    setting (codes "API_KEY") (upserted_lines ((codes "API_KEY", codes "k2") ∷ []) written)
    ≡ or_some
        (find_value (codes "API_KEY") ((codes "API_KEY", codes "k2") ∷ []))
        (setting (codes "API_KEY") written)
setting-upserted_lines_example =
    setting-upserted_lines (codes "API_KEY") ((codes "API_KEY", codes "k2") ∷ []) written
      api_key_fits

-- Settings: the interval falls back, since the text is no number.
abbrev variables : Text → Option Text
variables name =
    if text_eq name (codes "HUB_URL")
    then some (codes " http://h ")
    else if text_eq name (codes "API_KEY")
    then some (codes "k1")
    else if text_eq name (codes "HEARTBEAT_INTERVAL_MS")
    then some (codes "soon")
    else if text_eq name (codes "DEBUG_SOCKET")
    then some (codes "1x")
    else none

abbrev settings : Settings
settings = record {
  hub_url = codes "http://h";
  api_key = codes "k1";
  server_id = codes "daemon";
  command_template = default_command_template;
  cwd = codes "/srv";
  use_shell = false;
  heartbeat_interval_ms = natural 30000;
  debug_socket = true;
}

loads : load (codes "/srv") variables ≡ loaded settings
unfolding load required int parse_int digits digits_after text_eq trim trim_start trim_end
loads = refl

lacks_key : load (codes "/srv") (λ name. some (codes " ")) ≡ missing (codes "HUB_URL")
unfolding load required trim trim_start trim_end
lacks_key = refl
