-- ===== src/Api/Bodies.antt =====
-- The bodies of requests: the classes under dto/ of hub-api/src with their decorators, which the
-- ValidationPipe of hub-api/src/main.ts checks before a handler runs.
use code_caller.Prelude.{
  ℕ, String, Bool, false, Option, none, some, List, [], ◌∷◌, str_eq, if◌then◌else◌,
}
use code_caller.Schema.{OsType, WorkerType, PushPlatform}
use code_caller.Tasks.{CreateTask}
use code_caller.Servers.{CreateServer}
use code_caller.Registrations.{CreateRequest}
use code_caller.Approvals.{DecideApproval, reason_text}

-- A value of JSON as far as the decorators look at it: `other` is a number or an array.
pub data Json : Type 0 where
  null : Json
  boolean : Bool → Json
  string : String → Json
  object : (is_empty : Bool) → (text : String) → Json
  other : Json

-- The fields of a body.
abbrev pub Body : Type 0
Body = List (String × Json)

-- What class-validator, passport-jwt and the language bring: the tests of texts, the number that
-- stands for a UUID, the token of a header `Authorization`, and `toUpperCase`.
pub record Web : Type 0 where
  pub is_email : String → Bool
  pub is_ip : String → Bool
  pub is_uuid : String → Bool
  pub has_length : (at_least : ℕ) → String → Bool
  pub number_of : String → ℕ
  pub bearer_token : String → Option String
  pub to_upper_case : String → String

unfoldable pub field : String → Body → Option Json
field name [] = none
field name ((k, v) ∷ l) = let later = field name l in if str_eq k name then some v else later

-- `@IsString()`
abbrev pub as_string : Option Json → Option String
as_string (some (string s)) = some s
as_string _ = none

-- `@IsBoolean()`
abbrev pub as_boolean : Option Json → Option Bool
as_boolean (some (boolean b)) = some b
as_boolean _ = none

-- `@IsNotEmptyObject()`
abbrev pub as_object : Option Json → Option String
as_object (some (object false text)) = some text
as_object _ = none

-- `@IsOptional() @IsString()`: the outer `none` is a refusal, the next one a missing field, and the
-- last one a `null`
abbrev pub as_optional : Option Json → Option (Option (Option String))
as_optional none = some none
as_optional (some null) = some (some none)
as_optional (some (string s)) = some (some (some s))
as_optional _ = none

infixl 5 ◌>>=◌
abbrev pub ◌>>=◌ : {A B : Type 0} → Option A → (A → Option B) → Option B
none >>= k = none
some a >>= k = k a

-- A further decorator on a text.
abbrev pub only_if : (String → Bool) → String → Option String
only_if test s = if test s then some s else none

-- `@IsEnum(…)` of the schema's enumerations
unfoldable pub os_type_of : String → Option OsType
os_type_of s =
    if str_eq s "UBUNTU"
    then some OsType.ubuntu
    else if str_eq s "WINDOWS"
    then some OsType.windows
    else if str_eq s "MACOS"
    then some OsType.macos
    else none

unfoldable pub worker_type_of : String → Option WorkerType
worker_type_of s =
    if str_eq s "CODEX"
    then some WorkerType.codex
    else if str_eq s "CLAUDE"
    then some WorkerType.claude
    else if str_eq s "GEMINI"
    then some WorkerType.gemini
    else none

unfoldable pub push_platform_of : String → Option PushPlatform
push_platform_of s =
    if str_eq s "ANDROID"
    then some PushPlatform.android
    else if str_eq s "IOS"
    then some PushPlatform.ios
    else none

module _ (web : Web) where
  -- `LoginDto`
  unfoldable pub login_dto : Body → Option (String × String)
  unfolding field
  login_dto body = do
    email ← as_string (field "email" body)
    email ← only_if web.is_email email
    password ← as_string (field "password" body)
    password ← only_if (web.has_length 8) password
    some (email, password)

  -- `RefreshDto`
  unfoldable pub refresh_dto : Body → Option String
  unfolding field
  refresh_dto body = as_string (field "refreshToken" body)

  -- `CreateTaskDto`
  unfoldable pub create_task_dto : Body → Option CreateTask
  unfolding field worker_type_of
  create_task_dto body = do
    id ← as_string (field "serverId" body)
    id ← only_if web.is_uuid id
    name ← as_string (field "workerType" body)
    worker_type ← worker_type_of name
    input ← as_object (field "input" body)
    some (record { server_id = web.number_of id; worker_type = worker_type; input = input })

  -- `CreateServerDto`
  unfoldable pub create_server_dto : Body → Option CreateServer
  unfolding field os_type_of
  create_server_dto body = do
    name ← as_string (field "name" body)
    name ← only_if (web.has_length 1) name
    os_name ← as_string (field "osType" body)
    os_type ← os_type_of os_name
    ip ← as_string (field "tailscaleIp" body)
    ip ← only_if web.is_ip ip
    some (record { name = name; os_type = os_type; tailscale_ip = ip })

  -- `CreateServerRegistrationRequestDto`
  unfoldable pub create_request_dto : Body → Option CreateRequest
  unfolding field os_type_of
  create_request_dto body = do
    email ← as_string (field "ownerEmail" body)
    email ← only_if web.is_email email
    name ← as_string (field "name" body)
    name ← only_if (web.has_length 1) name
    os_name ← as_string (field "osType" body)
    os_type ← os_type_of os_name
    ip ← as_string (field "tailscaleIp" body)
    ip ← only_if web.is_ip ip
    fingerprint ← as_string (field "fingerprint" body)
    fingerprint ← only_if (web.has_length 12) fingerprint
    profile_name ← as_optional (field "profileName" body)
    some (record {
      owner_email = email;
      name = name;
      os_type = os_type;
      tailscale_ip = ip;
      fingerprint = fingerprint;
      profile_name = reason_text profile_name;
    })

  -- `DecideApprovalDto` and `DecideServerRegistrationRequestDto`
  unfoldable pub decide_dto : Body → Option DecideApproval
  unfolding field
  decide_dto body = do
    approve ← as_boolean (field "approve" body)
    reason ← as_optional (field "reason" body)
    some (record { approve = approve; reason = reason })

  -- `RegisterPushTokenDto`
  unfoldable pub push_token_dto : Body → Option (String × PushPlatform)
  unfolding field push_platform_of
  push_token_dto body = do
    token ← as_string (field "token" body)
    token ← only_if (web.has_length 1) token
    name ← as_string (field "platform" body)
    platform ← push_platform_of name
    some (token, platform)
