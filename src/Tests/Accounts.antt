-- ===== src/Tests/Accounts.antt =====
-- The theorems on registrations at a concrete hub.
use code_caller.Prelude.{[], ◌∷◌, List, ℕ, ◌≡◌, refl, true, none, some, arith}
use code_caller.Database.{Sets}
use code_caller.Database.Memory.{get, modify}
use code_caller.Schema.{Server, ServerRegistrationRequest, ServerRegistrationStatus, OsType}
use code_caller.Platform.Memory.{memory}
use code_caller.Hub.{ok}
use code_caller.Crypto.{hash_api_key}
use code_caller.Prelude.{List, [], ◌∷◌}
use code_caller.Text.{decimal}
use code_caller.Servers.{find_by_api_key, new_server}
use code_caller.Registrations.{to_public, DaemonResult, to_daemon_result}
use code_caller.RegistrationDecisions.{decide, approved_with}
use code_caller.RegistrationDecisions.Approval.{drawn_key, sealed_key, approve_effect}
use code_caller.RegistrationResults.{get_result, delivered}
use code_caller.RegistrationResults.Lifecycle.{
  Event, decided, asked, passed, listed, removed, perform_all, status_at, final_stays,
  key_delivered_once,
}
use code_caller.RegistrationResults.Onboarding.{onboarding}
use code_caller.Tests.World.{world, registration, granted}

-- Request 0 waits for a decision, request 1 was approved, request 2 is overdue.
abbrev waits : ServerRegistrationRequest
waits = registration ServerRegistrationStatus.pending 6000000

abbrev overdue : ServerRegistrationRequest
overdue = registration ServerRegistrationStatus.pending 4000000

waits_there : memory.registrations.find_unique 0 world.registrations ≡ some waits
unfolding get
waits_there = refl

granted_there : memory.registrations.find_unique 1 world.registrations ≡ some granted
unfolding get
granted_there = refl

overdue_there : memory.registrations.find_unique 2 world.registrations ≡ some overdue
unfolding get
overdue_there = refl

approve_effect_example :
    let (o, h') = decide 0 0 true world in
    let server_id = memory.servers.next_id world.servers in
    (o ≡ ok (to_public 0 (approved_with server_id (sealed_key waits world) waits)))
    × Sets memory.registrations 0
        (approved_with server_id (sealed_key waits world) waits)
        world.registrations
        h'.registrations
    × Sets memory.servers server_id
        (new_server 0 "delta" OsType.macos "100.64.0.9" (hash_api_key (drawn_key world)) 5000000)
        world.servers
        h'.servers
approve_effect_example = approve_effect 0 0 world waits_there refl refl (ground arith)

-- What the daemon of request 1 gets, first and then.
abbrev first_answer : DaemonResult
first_answer = record (to_daemon_result 1 granted) {
  status = ServerRegistrationStatus.approved;
  server_id = some 3;
  api_key = some "key-d";
}

abbrev second_answer : DaemonResult
second_answer = to_daemon_result 1 (delivered granted)

answered_first : (get_result 1 "s3cret" world).0 ≡ ok first_answer
unfolding get_result get
answered_first = refl

-- What happens between the answers.
abbrev meanwhile : List Event
meanwhile = decided 0 1 true ∷ passed 1000 ∷ asked 1 "s3cret" ∷ []

answered_again :
    (get_result 1 "s3cret" (perform_all meanwhile (get_result 1 "s3cret" world).1)).0
    ≡ ok second_answer
unfolding perform_all get_result get modify decide
answered_again = refl

key_delivered_once_example : second_answer.api_key ≡ none
key_delivered_once_example =
    key_delivered_once 1 "s3cret" world meanwhile "s3cret" answered_first refl answered_again

onboarding_example :
    let h₁ = (decide 0 0 true world).1 in
    let (o, h₂) = get_result 0 "s3cret" h₁ in
    let key = drawn_key world in
    (d : DaemonResult) × (j : ℕ) × (s : Server) × (o ≡ ok d)
    × (d.api_key ≡ some key)
    × (d.server_id ≡ some (memory.servers.next_id world.servers))
    × (find_by_api_key key h₂ ≡ some (j, s))
    × (s.api_key_hash ≡ hash_api_key key)
unfolding decimal
onboarding_example =
    onboarding 0 0 "s3cret" world waits_there refl refl (ground arith) refl refl (refl, refl, refl)

-- Request 3 was rejected.
rejected_there : status_at 3 world ≡ some ServerRegistrationStatus.rejected
unfolding get
rejected_there = refl

-- What its owner and its daemon may try.
abbrev attempts_on_it : List Event
attempts_on_it = decided 0 3 true ∷ asked 3 "s3cret" ∷ passed 9000000 ∷ listed 0 ∷ removed 0 3 ∷ []

final_stays_example :
    status_at 3 (perform_all attempts_on_it world) ≡ some ServerRegistrationStatus.rejected
final_stays_example =
    final_stays 3 {status = ServerRegistrationStatus.rejected} refl attempts_on_it world
      rejected_there
