-- ===== src/Daemon/Registration/Polling/Settings.antt =====
-- What a registration that succeeds has written (agent-daemon/src/register.js).
use code_caller.Prelude.{
  ℕ, suc, ◌≤◌, ◌≡◌, refl, sym, ap, ◌∙◌, some, is_some, List, true, Bool-cases, Option-cases, inl,
  inr, arith,
}
use code_caller.Units.{Text}
use code_caller.Daemon.Registration.{parse_args, request_input, RequestInput}
use code_caller.Daemon.Registration.EnvFile.{find_value, upserted_lines}
use code_caller.Daemon.Registration.EnvFile.Upserts.{
  setting, or_some, are_keys, all_key_units, setting-upserted_lines,
}
use code_caller.Daemon.Registration.Polling.{
  World, Ticket, Read, failed, document, registered, PollOutcome, approved, gave_up, poll_result,
  create_request, read_json, await_approval, finish, settings_of, main, poll_interval_ms,
}
use code_caller.Daemon.Registration.Polling.Verdicts.{Approves, poll_result-Approves}
use code_caller.Daemon.Registration.Polling.Waits.{poll_result-ends}

-- The ticket, and the answer to the last poll, which approves, by which the lines came about.
abbrev pub WrittenBy : World → RequestInput → Read Ticket → List Text → Type 0
WrittenBy w input r lines =
    (ticket : Ticket) × (turn : ℕ) × (api_key : Text) × (server_id : Text) × (r ≡ document ticket)
    × (poll_result w.parse_answer w.turns w.created_at ticket.expires_at
        ≡ some (suc turn, approved api_key server_id))
    × Approves (read_json w.parse_answer (w.turns turn).answer) api_key server_id
    × ((key : Text)
        → setting key lines
          ≡ or_some (find_value key (settings_of input api_key server_id))
              (setting key w.env_lines))

settings_of-keys :
    (input : RequestInput) (api_key server_id : Text)
    → are_keys (settings_of input api_key server_id) ≡ true
unfolding are_keys all_key_units
settings_of-keys input api_key server_id = refl

finish-registered :
    (w : World) (input : RequestInput) (o : PollOutcome) (lines : List Text)
    → finish w input o ≡ registered lines
    → (api_key : Text) × (server_id : Text) × (o ≡ approved api_key server_id)
      × (upserted_lines (settings_of input api_key server_id) w.env_lines ≡ lines)
finish-registered w input (gave_up reason) lines h = absurd cc
finish-registered w input (approved api_key server_id) lines h = (api_key, server_id, refl, cc)

await_approval-registered :
    (w : World) (input : RequestInput) (r : Read Ticket) (lines : List Text)
    → await_approval w input r ≡ some (registered lines)
    → WrittenBy w input r lines
await_approval-registered w input (failed reason) lines h = absurd cc
await_approval-registered w input (document ticket) lines h =
    elim (Option-cases (poll_result w.parse_answer w.turns w.created_at ticket.expires_at)) [
      | inl none_left ↦ absurd (ground arith)
      | inr ((turn, o), e) ↦
          let (api_key, server_id, p, q) = finish-registered w input o lines (ground arith) in
          let (k, last, asked) =
            poll_result-Approves w.parse_answer w.turns api_key server_id w.created_at
              ticket.expires_at turn (ground (arith, p)) in
          (
            ticket,
            k,
            api_key,
            server_id,
            refl,
            ground (arith, p),
            asked,
            λ key.
                ap (setting key) (sym q)
                ∙ setting-upserted_lines key (settings_of input api_key server_id) w.env_lines
                    (settings_of-keys input api_key server_id),
          )
    ]

-- When the registration program ends with lines to write, the hub had given a ticket, the answer
-- to the last poll was a document with the status APPROVED and a key that is not empty, and the
-- lines say of each key what the settings say (the hub's address, that key, the server's id of
-- that answer), and of every other key what the file said before.
pub main-registered :
    (argv : List Text) (w : World) (lines : List Text)
    → main argv w ≡ some (registered lines)
    → WrittenBy w
        (request_input (parse_args argv) w.machine)
        (create_request w (request_input (parse_args argv) w.machine))
        lines
unfolding main
main-registered argv w lines h = elim (Bool-cases (parse_args argv).help) [
  | inl help ↦ absurd (ground arith)
  | inr wanted ↦
      let input = request_input (parse_args argv) w.machine in
      await_approval-registered w input (create_request w input) lines (ground arith)
]

await_approval-ends :
    (w : World) (input : RequestInput) (r : Read Ticket)
    → ((k : ℕ) → poll_interval_ms ≤ (w.turns k).elapsed)
    → is_some (await_approval w input r) ≡ true
await_approval-ends w input (failed reason) waits = refl
await_approval-ends w input (document ticket) waits =
    let (k, o, e, b) =
      poll_result-ends w.parse_answer w.turns waits w.created_at ticket.expires_at in
    ground arith

-- If each turn of the loop takes at least the 2500 ms of its wait, the registration program ends.
pub main-ends :
    (argv : List Text) (w : World)
    → ((k : ℕ) → poll_interval_ms ≤ (w.turns k).elapsed)
    → is_some (main argv w) ≡ true
unfolding main
main-ends argv w waits = elim (Bool-cases (parse_args argv).help) [
  | inl help ↦ ground arith
  | inr wanted ↦ ground (
    arith,
    await_approval-ends w (request_input (parse_args argv) w.machine)
        (create_request w (request_input (parse_args argv) w.machine)) waits,
  )
]
