-- ===== src/Daemon/Registration/Polling.antt =====
-- agent-daemon/src/register.js: the requests to the hub, and the wait for the approval.
pub mod Waits
pub mod Verdicts
pub mod Settings
use code_caller.Prelude.{
  ℕ, zero, suc, ◌+◌, ◌-◌, Bool, true, false, not, ◌&&◌, ◌||◌, Option, none, some, List, [], ◌∷◌,
  ltb, is_some, if◌then◌else◌,
}
use code_caller.Units.{Text, codes, is_empty, text_eq}
use code_caller.Daemon.Registration.{
  Options, parse_args, Machine, RequestInput, request_input, fingerprint_source,
}
use code_caller.Daemon.Registration.EnvFile.{upserted_lines}

pub record Response : Type 0 where
  pub ok : Bool
  pub status : ℕ
  pub text : Text

-- What becomes of a `fetch`.
pub data Answer : Type 0 where
  unreachable : Answer
  response : Response → Answer

-- Why the registration fails.
pub data Reason : Type 0 where
  network : Reason
  http_error : ℕ → Reason
  not_json : Reason
  null_document : Reason
  ended : Text → Reason
  timed_out : Reason

pub data Read (A : Type 0) : Type 0 where
  failed : Reason → Read A
  document : A → Read A

-- `readJson`, with what `JSON.parse` makes of a text; its callers read fields of the document, which
-- fails for `null`.
unfoldable pub read_json : {A : Type 0} → (Text → Option A) → Answer → Read A
read_json parse unreachable = failed network
read_json parse (response r) =
    if is_empty r.text
    then (if r.ok then failed null_document else failed (http_error r.status))
    else elim (parse r.text) [
      | none ↦ failed not_json
      | some d ↦ if r.ok then document d else failed (http_error r.status)
    ]

-- The answer to the request, with the time in milliseconds at which it expires.
pub record Ticket : Type 0 where
  pub id : Text
  pub secret : Text
  pub expires_at : ℕ

-- The answer to a poll; `server_id` as it is written out.
pub record PollAnswer : Type 0 where
  pub status : Text
  pub api_key : Option Text
  pub server_id : Text

abbrev pub poll_interval_ms : ℕ
poll_interval_ms = 2500

-- One turn of the loop: how long the wait and the request took, and the answer.
pub record Turn : Type 0 where
  pub elapsed : ℕ
  pub answer : Answer

pub data PollOutcome : Type 0 where
  approved : (api_key : Text) → (server_id : Text) → PollOutcome
  gave_up : Reason → PollOutcome

abbrev is_final : Text → Bool
is_final status =
    text_eq status (codes "REJECTED")
    || (text_eq status (codes "EXPIRED") || text_eq status (codes "CREDENTIAL_DELIVERED"))

-- `result.apiKey`, if it is not empty
abbrev key_in : PollAnswer → Option Text
key_in a = elim a.api_key [ none ↦ none | some key ↦ if is_empty key then none else some key ]

abbrev unless_final : PollAnswer → Option PollOutcome
unless_final a = if is_final a.status then some (gave_up (ended a.status)) else none

-- What an answer decides, if it decides anything.
unfoldable pub verdict : Read PollAnswer → Option PollOutcome
unfolding text_eq
verdict (failed reason) = some (gave_up reason)
verdict (document a) = elim (key_in a) [
  | none ↦ unless_final a
  | some key ↦
      if text_eq a.status (codes "APPROVED")
      then some (approved key a.server_id)
      else unless_final a
]

module _ (parse : Text → Option PollAnswer) (turns : ℕ → Turn) where
  -- The loop of `pollResult` from a turn on, and the number of the turn that it ends before.
  unfoldable pub poll :
      (fuel : ℕ) → (turn : ℕ) → (now : ℕ) → (expires_at : ℕ) → Option (ℕ × PollOutcome)
  unfolding verdict read_json
  poll zero turn now expires_at = none
  poll (suc fuel) turn now expires_at =
      if ltb now expires_at
      then elim (verdict (read_json parse (turns turn).answer)) [
        | none ↦ poll fuel (suc turn) (now + (turns turn).elapsed) expires_at
        | some outcome ↦ some (suc turn, outcome)
      ]
      else some (turn, gave_up timed_out)

  -- `pollResult`
  unfoldable pub poll_result : (now : ℕ) → (expires_at : ℕ) → Option (ℕ × PollOutcome)
  unfolding poll
  poll_result now expires_at = poll (suc (expires_at - now)) 0 now expires_at

-- How the program ends: `usage()`, the error, or the lines that it writes.
pub data Outcome : Type 0 where
  usage : Outcome
  registration_failed : Reason → Outcome
  registered : List Text → Outcome

-- What the program does to the world: the request of `createRequest`, and the turns of the loop.
pub record World : Type 0 where
  pub machine : Machine
  pub env_lines : List Text
  pub hash : Text → Text
  pub create : RequestInput → (fingerprint : Text) → Answer
  pub parse_ticket : Text → Option Ticket
  pub parse_answer : Text → Option PollAnswer
  pub created_at : ℕ
  pub turns : ℕ → Turn

abbrev pub settings_of : RequestInput → Text → Text → List (Text × Text)
settings_of input api_key server_id =
    (codes "HUB_URL", input.hub_url)
    ∷ (codes "API_KEY", api_key)
    ∷ (codes "SERVER_ID", server_id)
    ∷ []

unfoldable pub create_request : World → RequestInput → Read Ticket
unfolding read_json fingerprint_source
create_request w input =
    read_json w.parse_ticket (w.create input (w.hash (fingerprint_source w.machine input)))

abbrev pub finish : World → RequestInput → PollOutcome → Outcome
finish w input (gave_up reason) = registration_failed reason
finish w input (approved api_key server_id) =
    registered (upserted_lines (settings_of input api_key server_id) w.env_lines)

abbrev pub await_approval : World → RequestInput → Read Ticket → Option Outcome
await_approval w input (failed reason) = some (registration_failed reason)
await_approval w input (document ticket) =
    elim (poll_result w.parse_answer w.turns w.created_at ticket.expires_at) [
      | none ↦ none
      | some (turn, outcome) ↦ some (finish w input outcome)
    ]

-- `main`; `none` when the loop runs out of fuel
unfoldable pub main : List Text → World → Option Outcome
unfolding parse_args request_input create_request poll_result upserted_lines
main argv w =
    let o = parse_args argv in
    if o.help
    then some usage
    else let input = request_input o w.machine in await_approval w input (create_request w input)
