-- ===== src/Registrations.antt =====
-- hub-api/src/server-registrations/server-registrations.service.ts.
use code_caller.Prelude.{
  ℕ, ◌+◌, ◌*◌, String, Bool, true, false, not, ◌&&◌, ◌||◌, Option, none, some, List, [], ◌∷◌, map,
  ◌==◌, if◌then◌else◌, str_eq, leb, ltb,
}
use code_caller.Schema.{
  OsType, User, ServerRegistrationRequest, ServerRegistrationStatus, WorkerProvider,
  is_pending_registration,
}
use code_caller.Platform.{Platform}
use code_caller.Hub.{Hub, Action, ErrorKind, pure, or_raise, gets, modify, ◌>>=◌, ◌>>◌}
use code_caller.Prisma.{registration_update}
use code_caller.Crypto.{generate_secret, generate_verification_code, hash_api_key}
use code_caller.Servers.{NewProfile}

abbrev pub request_ttl_ms : ℕ
request_ttl_ms = 10 * 60 * 1000

pub record CreateRequest : Type 0 where
  pub owner_email : String
  pub name : String
  pub os_type : OsType
  pub tailscale_ip : String
  pub fingerprint : String
  pub profile_name : Option String

-- `toPublic`
pub record PublicRequest : Type 0 where
  pub id : ℕ
  pub name : String
  pub os_type : OsType
  pub tailscale_ip : String
  pub fingerprint : String
  pub verification_code : String
  pub status : ServerRegistrationStatus
  pub expires_at : ℕ
  pub server_id : Option ℕ
  pub created_at : ℕ

abbrev pub to_public : ℕ → ServerRegistrationRequest → PublicRequest
to_public i r = record {
  id = i;
  name = r.name;
  os_type = r.os_type;
  tailscale_ip = r.tailscale_ip;
  fingerprint = r.fingerprint;
  verification_code = r.verification_code;
  status = r.status;
  expires_at = r.expires_at;
  server_id = r.server_id;
  created_at = r.created_at;
}

-- `toDaemonResult`, with the key of the one answer that carries it
pub record DaemonResult : Type 0 where
  pub id : ℕ
  pub status : ServerRegistrationStatus
  pub verification_code : String
  pub expires_at : ℕ
  pub server_id : Option ℕ
  pub api_key : Option String

abbrev pub to_daemon_result : ℕ → ServerRegistrationRequest → DaemonResult
to_daemon_result i r = record {
  id = i;
  status = r.status;
  verification_code = r.verification_code;
  expires_at = r.expires_at;
  server_id = r.server_id;
  api_key = none;
}

abbrev pub default_worker_profiles : List NewProfile
default_worker_profiles =
    record {
      provider = WorkerProvider.codex;
      profile_name = "default";
      enabled = true;
      capabilities =
          "{\"taskExecution\":true,\"approvals\":true,\"shell\":true,\"codeEditing\":true}";
    }
    ∷ future WorkerProvider.claude_code
    ∷ future WorkerProvider.antigravity
    ∷ future WorkerProvider.opencode
    ∷ []
  where
    future : WorkerProvider → NewProfile
    future provider = record {
      provider = provider;
      profile_name = "future";
      enabled = false;
      capabilities = "{\"taskExecution\":true,\"approvals\":true}";
    }

-- The three columns of an encrypted key, where all are there and not empty.
abbrev pub nonempty_text : Option String → Option String
nonempty_text none = none
nonempty_text (some String.[]) = none
nonempty_text (some s) = some s

module _ ⦃pf : Platform⦄ where
  abbrev pub new_request : ℕ → CreateRequest → String → String → ℕ → ServerRegistrationRequest
  new_request owner_id dto code secret_hash now = record {
    owner_id = owner_id;
    name = dto.name;
    os_type = dto.os_type;
    tailscale_ip = dto.tailscale_ip;
    fingerprint = dto.fingerprint;
    verification_code = code;
    request_secret_hash = secret_hash;
    status = ServerRegistrationStatus.pending;
    expires_at = now + request_ttl_ms;
    server_id = none;
    api_key_ciphertext = none;
    api_key_iv = none;
    api_key_auth_tag = none;
    created_at = now;
  }

  unfoldable pub registration_create : ServerRegistrationRequest → Action ℕ
  registration_create r h =
      pure (pf.registrations.next_id h.registrations)
        (record h { registrations = pf.registrations.create r h.registrations })

  -- the user with an email, which is unique
  abbrev pub user_by_email : String → Hub → Option (ℕ × User)
  user_by_email email h = pf.users.find_first (λ _. 0) (λ _ u. str_eq u.email email) h.users

  -- The answer is the public request, and its secret.
  unfoldable pub create : CreateRequest → Action (PublicRequest × String)
  unfolding generate_secret generate_verification_code registration_create
  create dto = do
    found ← gets (user_by_email dto.owner_email)
    (owner_id, _) ← or_raise found ErrorKind.not_found "등록할 사용자를 찾을 수 없습니다."
    secret ← generate_secret
    code ← generate_verification_code
    now ← gets (λ h. h.clock)
    let r = new_request owner_id dto code (hash_api_key secret) now
    i ← registration_create r
    pure (to_public i r, secret)

  -- `status: PENDING, expiresAt: { lt: now }`
  abbrev pub is_overdue : ℕ → ServerRegistrationRequest → Bool
  is_overdue now r = is_pending_registration r.status && ltb r.expires_at now

  abbrev pub expire : ServerRegistrationRequest → ServerRegistrationRequest
  expire r = record r { status = ServerRegistrationStatus.expired }

  unfoldable pub expire_pending_requests : Action (Unit {0})
  expire_pending_requests = modify λ h. record h {
    registrations = pf.registrations.update_many (λ _. is_overdue h.clock) expire h.registrations;
  }

  unfoldable pub find_pending_for_owner : ℕ → Action (List PublicRequest)
  unfolding expire_pending_requests
  find_pending_for_owner owner_id = do
    expire_pending_requests
    gets λ h.
        map (λ (e : ℕ × ServerRegistrationRequest). to_public e.0 e.1)
          (pf.registrations.find_many (λ a b. leb b.1.created_at a.1.created_at)
            (λ _ r. r.owner_id == owner_id && is_pending_registration r.status) h.registrations)

  -- `expireIfNeeded`
  unfoldable pub expire_if_needed : ℕ → ServerRegistrationRequest → Action ServerRegistrationRequest
  unfolding registration_update
  expire_if_needed i r h =
      if not (is_pending_registration r.status) || leb h.clock r.expires_at
      then pure r h
      else registration_update i expire h
