-- ===== src/Api/Creation.antt =====
-- What a POST created, as a later GET finds it (the controllers of hub-api/src).
use code_caller.Prelude.{◌∷◌, ℕ, String, ◌≡◌, ◌≢◌, ◌∙◌, inl, inr, arith, some, Option, Option-cases}
use code_caller.Schema.{Task, TaskStatus}
use code_caller.Platform.{Platform}
use code_caller.Attempts.{watchdog_interval_ms}
use code_caller.Hub.{watchdog_job, dispatch_job, Hub, Action, ok, ErrorKind, Result-cases}
use code_caller.Tasks.{CreateTask, submit, find_one_for_owner_task, new_task}
use code_caller.Servers
use code_caller.Servers.{CreateServer, PublicServer}
use code_caller.Crypto.{hash_api_key}
use code_caller.Api.Bodies.{Web, Body, create_task_dto, create_server_dto}
use code_caller.Api.{
  Route, Request, Answer, Payload, handle, handle_user, current_user, answered, post_task, get_task,
  post_server, get_server, task, server, new_server, guarded, validated, status_of,
}

-- No error is answered as a creation.
no_error : (k : ErrorKind) → status_of k ≢ 201
no_error ErrorKind.bad_request e = ground arith
no_error ErrorKind.unauthorized e = ground arith
no_error ErrorKind.forbidden e = ground arith
no_error ErrorKind.not_found e = ground arith
no_error ErrorKind.service_unavailable e = ground arith
no_error ErrorKind.plain e = ground arith
no_error ErrorKind.database e = ground arith

module _ ⦃pf : Platform⦄ where
  submitted_found :
      (user_id : ℕ) (dto : CreateTask) (h : Hub) (x : ℕ × Task)
      → (submit user_id dto h).0 ≡ ok x
      → (find_one_for_owner_task user_id x.0 (submit user_id dto h).1
          ≡ (ok x, (submit user_id dto h).1))
        × (x.1.status ≡ TaskStatus.queued)
        × ((submit user_id dto h).1.clock ≡ h.clock)
        × ((submit user_id dto h).1.added
            ≡ watchdog_job watchdog_interval_ms 10 ∷ dispatch_job x.0 5 2000 ∷ h.added)
  unfolding submit find_one_for_owner_task
  submitted_found user_id dto h x is = (
    ground (arith, pf.tasks.find-create (new_task dto h.clock) x.0 h.tasks),
    ground arith,
    ground arith,
    ground arith,
  )

  created_found :
      (user_id : ℕ) (dto : CreateServer) (h : Hub) (x : PublicServer × String)
      → (Servers.create user_id dto h).0 ≡ ok x
      → (Servers.find_one_for_owner user_id x.0.id (Servers.create user_id dto h).1
          ≡ (ok x.0, (Servers.create user_id dto h).1))
        × ((Servers.create user_id dto h).1.clock ≡ h.clock)
  unfolding Servers.create Servers.find_one_for_owner
  created_found user_id dto h x is = (
    ground (
      arith,
      pf.servers.find-create
          (Servers.new_server user_id dto.name dto.os_type dto.tailscale_ip
            (hash_api_key (pf.random_hex 32 h.draws)) h.clock)
          x.0.id h.servers,
    ),
    ground arith,
  )

  answered_created :
      {A : Type 0} (f : A → Payload) (m : Action A) (h : Hub)
      → (answered 201 f m h).0.status ≡ 201
      → (a : A) × ((m h).0 ≡ ok a)
        × (answered 201 f m h ≡ (record { status = 201; payload = f a }, (m h).1))
  answered_created f m h is = elim (Result-cases (m h).0) [
    | inl (a, good) ↦ (a, good, ground (arith, good))
    | inr (e, bad) ↦ absurd (no_error e.kind (ground (arith, is, bad)))
  ]

abbrev pub asks : Option String → Route → Body → Request
asks authorization route b = record { route = route; authorization = authorization; body = b }

module _ ⦃pf : Platform⦄ (web : Web) (authorization : Option String) (h : Hub) where
  -- A handler under the guard that creates, and what it did.
  module _ {D A : Type 0} (dto : Option D) (f : A → Payload) (create : ℕ → D → Action A) where
    abbrev creation : Answer × Hub
    creation = guarded web authorization (λ i. validated dto λ d. answered 201 f (create i d)) h

    created :
        creation.0.status ≡ 201
        → (i : ℕ) × (d : D) × (a : A) × (current_user web authorization h ≡ some i)
          × ((create i d h).0 ≡ ok a)
          × (creation ≡ (record { status = 201; payload = f a }, (create i d h).1))
    created is = elim (Option-cases (current_user web authorization h)) [
      | inl no_user ↦ absurd (ground (arith, is, no_user))
      | inr (i, user) ↦ elim (Option-cases dto) [
        | inl no_dto ↦ absurd (ground (arith, is, user, no_dto))
        | inr (d, valid) ↦
            let same : creation ≡ answered 201 f (create i d) h = ground (arith, user, valid) in
            let (a, good, eq) = answered_created f (create i d) h (ground (arith, is, same)) in
            (i, d, a, user, good, same ∙ eq)
      ]
    ]

  -- If a request to create a task is answered with 201, the answer carries an id and a queued
  -- task, the hub has added one dispatch job for that id and the watchdog's job, and the same
  -- user's next request for the task of that id is answered with that very task and changes
  -- nothing.
  pub posted_task_found :
      (body body' : Body)
      → (handle web (asks authorization post_task body) h).0.status ≡ 201
      → let (answer, h') = handle web (asks authorization post_task body) h in
        (i : ℕ) × (t : Task) × (answer.payload ≡ task (i, t))
        × (t.status ≡ TaskStatus.queued)
        × (h'.added ≡ watchdog_job watchdog_interval_ms 10 ∷ dispatch_job i 5 2000 ∷ h.added)
        × (handle web (asks authorization (get_task i) body') h'
            ≡ (record { status = 200; payload = task (i, t) }, h'))
  unfolding handle handle_user current_user
  posted_task_found body body' is =
      let (user_id, dto, x, user, good, eq) = created (create_task_dto web body) task submit is in
      let (found, queued, clock, added) = submitted_found user_id dto h x good in
      (
        x.0,
        x.1,
        ground (arith, eq),
        queued,
        ground (arith, eq, added),
        ground (arith, eq, found, clock, user),
      )

  -- A server.
  pub posted_server_found :
      (body body' : Body)
      → (handle web (asks authorization post_server body) h).0.status ≡ 201
      → let (answer, h') = handle web (asks authorization post_server body) h in
        (s : PublicServer) × (key : String) × (answer.payload ≡ new_server (s, key))
        × (handle web (asks authorization (get_server s.id) body') h'
            ≡ (record { status = 200; payload = server s }, h'))
  unfolding handle handle_user current_user
  posted_server_found body body' is =
      let (user_id, dto, x, user, good, eq) =
        created (create_server_dto web body) Payload.new_server Servers.create is in
      let (found, clock) = created_found user_id dto h x good in
      (x.0, x.1, ground (arith, eq), ground (arith, eq, found, clock, user))
