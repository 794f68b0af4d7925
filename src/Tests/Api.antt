-- ===== src/Tests/Api.antt =====
-- The theorems on the HTTP interface at concrete requests.
use code_caller.Prelude.{
  zero, suc, ap, String, ℕ, ◌≡◌, refl, true, false, none, some, [], ◌∷◌, arith, str_eq,
  if◌then◌else◌,
}
use code_caller.Database.Memory.{get}
use code_caller.Schema.{Task, TaskStatus}
use code_caller.Hub.{watchdog_job, dispatch_job}
use code_caller.Attempts.{watchdog_interval_ms}
use code_caller.Platform.Memory.{memory}
use code_caller.Servers
use code_caller.Servers.{PublicServer}
use code_caller.Tasks.{submit, cancel}
use code_caller.Gateway.Apps.{user_of}
use code_caller.Api.Bodies.{
  Json, Web, Body, field, create_task_dto, create_server_dto, worker_type_of, os_type_of,
}
use code_caller.Api.{
  Request, handle, handle_user, current_user, post_task, post_server, post_cancel, get_task, task,
}
use code_caller.Api.Access.{client_error_changes_nothing}
use code_caller.Api.Foreign.{foreign_server, foreign_task, foreign_approval}
use code_caller.Api.Elsewhere.{others_kept}
use code_caller.Api.Creation.{asks, posted_task_found}
use code_caller.Schema.{WorkerType}
use code_caller.Mobile.Items.{create_task_call}
use code_caller.Api.Clients.{Post, call_post, request_of, meaning, handle-request_of}
use code_caller.Tests.World.{world}

abbrev web : Web
web = record {
  is_email = λ s. true;
  is_ip = λ s. true;
  is_uuid = λ s. true;
  has_length = λ n s. true;
  number_of = λ s. 1;
  bearer_token = λ s. if str_eq s "Bearer t" then some "t" else none;
  to_upper_case = λ s. s;
}

-- task 4 is at the server of the other user
abbrev intrusion : Request
intrusion = record { route = post_cancel 4; authorization = some "Bearer t"; body = [] }

forbidden : (handle web intrusion world).0.status ≡ 403
unfolding handle handle_user current_user user_of cancel get
forbidden = refl

client_error_changes_nothing_example : (handle web intrusion world).1 ≡ world
client_error_changes_nothing_example =
    client_error_changes_nothing web intrusion world (ground (arith, forbidden))
      (ground (arith, forbidden))

abbrev task_body : Body
task_body =
    ("serverId", Json.string "1")
    ∷ ("workerType", Json.string "CODEX")
    ∷ ("input", Json.object false "{\"prompt\":\"hi\"}")
    ∷ []

abbrev post : Request
post = asks (some "Bearer t") post_task task_body

task_posted : (handle web post world).0.status ≡ 201
unfolding handle handle_user current_user user_of create_task_dto field worker_type_of submit get
task_posted = refl

posted_task_found_example :
    let (answer, h') = handle web post world in
    (i : ℕ) × (t : Task) × (answer.payload ≡ task (i, t))
    × (t.status ≡ TaskStatus.queued)
    × (h'.added ≡ watchdog_job watchdog_interval_ms 10 ∷ dispatch_job i 5 2000 ∷ [])
    × (handle web (asks (some "Bearer t") (get_task i) []) h'
        ≡ (record { status = 200; payload = task (i, t) }, h'))
posted_task_found_example = posted_task_found web (some "Bearer t") world task_body [] task_posted

abbrev server_body : Body
server_body =
    ("name", Json.string "epsilon")
    ∷ ("osType", Json.string "UBUNTU")
    ∷ ("tailscaleIp", Json.string "100.64.0.5")
    ∷ []

abbrev server_post : Request
server_post = asks (some "Bearer t") post_server server_body

server_posted : (handle web server_post world).0.status ≡ 201
unfolding handle handle_user current_user user_of create_server_dto field os_type_of Servers.create
server_posted = refl

others_kept_example :
    (foreign_server
        (current_user web intrusion.authorization world)
        4
        (handle web intrusion world).1
      ≡ foreign_server (current_user web intrusion.authorization world) 4 world)
    × (foreign_task
          (current_user web intrusion.authorization world)
          4
          (handle web intrusion world).1
        ≡ foreign_task (current_user web intrusion.authorization world) 4 world)
    × (foreign_approval
          (current_user web intrusion.authorization world)
          4
          (handle web intrusion world).1
        ≡ foreign_approval (current_user web intrusion.authorization world) 4 world)
others_kept_example = others_kept web intrusion world 4

-- Ids as so many ticks, which are counted.
abbrev ticks : ℕ → String
ticks zero = ""
ticks (suc n) = String.◌∷◌ "i" (ticks n)

abbrev count : String → ℕ
count String.[] = 0
count (String.◌∷◌ c s) = suc (count s)

count-ticks : (n : ℕ) → count (ticks n) ≡ n
count-ticks zero = refl
count-ticks (suc n) = ap suc (count-ticks n)

abbrev counting_web : Web
counting_web = record web { number_of = count }

known : current_user counting_web (some "Bearer t") world ≡ some 0
unfolding current_user user_of
known = refl

abbrev wanted : Post
wanted = call_post (create_task_call 1 WorkerType.codex "fix the build")

handle-request_of_example :
    handle counting_web (request_of ticks (λ p. p) (some "Bearer t") wanted) world
    ≡ meaning (λ p. p) 0 wanted world
handle-request_of_example =
    handle-request_of counting_web ticks (λ p. p) (some "Bearer t") world known count-ticks wanted
      refl
