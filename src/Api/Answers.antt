-- ===== src/Api/Answers.antt =====
-- What a handler of a controller answers, and what stands before and after it: the ValidationPipe of
-- hub-api/src/main.ts, and the exception filter of NestJS.
use code_caller.Prelude.{ℕ, String, Option, none, some, List, ◌==◌, if◌then◌else◌}
use code_caller.Schema.{ServerStatus, Task, Approval}
use code_caller.Platform.{Platform}
use code_caller.Hub.{Hub, ok, err, Error, ErrorKind, Action}
use code_caller.Auth.{TokenPair}
use code_caller.Servers.{PublicServer}
use code_caller.Registrations.{PublicRequest, DaemonResult}

-- What an answer carries.
pub data Payload : Type 0 where
  nothing : Payload
  tokens : TokenPair → Payload
  task : ℕ × Task → Payload
  task_list : List (ℕ × Task) → Payload
  server : PublicServer → Payload
  server_list : List PublicServer → Payload
  new_server : PublicServer × String → Payload
  health : ServerStatus × Option ℕ → Payload
  registration : PublicRequest → Payload
  registration_list : List PublicRequest → Payload
  new_registration : PublicRequest × String → Payload
  registration_result : DaemonResult → Payload
  approval : ℕ × Approval → Payload
  approval_list : List (ℕ × Approval × Option Task) → Payload
  failure : (message : String) → Payload

pub record Answer : Type 0 where
  pub status : ℕ
  pub payload : Payload

-- The statuses of the exceptions; an error that is none of NestJS is told as 500.
abbrev pub status_of : ErrorKind → ℕ
status_of ErrorKind.bad_request = 400
status_of ErrorKind.unauthorized = 401
status_of ErrorKind.forbidden = 403
status_of ErrorKind.not_found = 404
status_of ErrorKind.service_unavailable = 503
status_of ErrorKind.plain = 500
status_of ErrorKind.database = 500

-- The message of an answer; that of another error is not told.
abbrev pub told : Error → String
told e = if status_of e.kind == 500 then "Internal server error" else e.message

abbrev pub refused : ℕ → String → Answer
refused status message = record { status = status; payload = failure message }

module _ ⦃pf : Platform⦄ where
  abbrev pub answered : {A : Type 0} → ℕ → (A → Payload) → Action A → Hub → Answer × Hub
  answered status f action h =
      let (r, h') = action h in
      elim r [
        | ok a ↦ (record { status = status; payload = f a }, h')
        | err e ↦ (refused (status_of e.kind) (told e), h')
      ]

  -- The ValidationPipe: a body that does not pass never reaches the handler.
  abbrev pub validated : {A : Type 0} → Option A → (A → Hub → Answer × Hub) → Hub → Answer × Hub
  validated none k h = (refused 400 "Bad Request", h)
  validated (some a) k h = k a h
