-- ===== src/RegistrationDecisions.antt =====
-- hub-api/src/server-registrations/server-registrations.service.ts: the owner's decision.
pub mod Approval
use code_caller.Prelude.{ℕ, Bool, not, some, ◌==◌, if◌then◌else◌}
use code_caller.Schema.{
  ServerRegistrationRequest, ServerRegistrationStatus, is_pending_registration,
}
use code_caller.Platform.{Platform}
use code_caller.Hub.{Action, ErrorKind, pure, or_raise, raise_if, gets, ◌>>=◌, ◌>>◌}
use code_caller.Prisma.{registration_update}
use code_caller.Crypto.{Sealed, generate_api_key, hash_api_key, encrypt_for_request_secret}
use code_caller.Servers.{server_create, new_server}
use code_caller.Registrations.{PublicRequest, to_public, default_worker_profiles, expire_if_needed}

module _ ⦃pf : Platform⦄ where
  -- the columns that the approval fills
  abbrev pub approved_with : ℕ → Sealed → ServerRegistrationRequest → ServerRegistrationRequest
  approved_with server_id e r = record r {
    status = ServerRegistrationStatus.approved;
    server_id = some server_id;
    api_key_ciphertext = some e.ciphertext;
    api_key_iv = some e.iv;
    api_key_auth_tag = some e.auth_tag;
  }

  -- The approval: a key for a new server, kept encrypted for the daemon to fetch. Both writes of
  -- the transaction are at rows that are there.
  unfoldable pub approve : ℕ → ℕ → ServerRegistrationRequest → Action PublicRequest
  unfolding generate_api_key encrypt_for_request_secret server_create registration_update
  approve owner_id request_id request = do
    api_key ← generate_api_key
    encrypted ← encrypt_for_request_secret api_key request.request_secret_hash
    now ← gets (λ h. h.clock)
    server_id ←
        server_create
          (new_server owner_id request.name request.os_type request.tailscale_ip
            (hash_api_key api_key) now)
          default_worker_profiles
    approved ← registration_update request_id (approved_with server_id encrypted)
    pure (to_public request_id approved)

  unfoldable pub decide_pending :
      ℕ → ℕ → Bool → ServerRegistrationRequest → ServerRegistrationRequest → Action PublicRequest
  unfolding approve registration_update
  decide_pending owner_id request_id approved request current =
      if not (is_pending_registration current.status)
      then pure (to_public request_id current)
      else if not approved
      then (do
        rejected ←
            registration_update request_id
              (λ r. record r { status = ServerRegistrationStatus.rejected })
        pure (to_public request_id rejected))
      else approve owner_id request_id request

  unfoldable pub decide : ℕ → ℕ → Bool → Action PublicRequest
  unfolding expire_if_needed decide_pending
  decide owner_id request_id approved = do
    found ← gets (λ h. pf.registrations.find_unique request_id h.registrations)
    request ← or_raise found ErrorKind.not_found "서버 등록 요청을 찾을 수 없습니다."
    raise_if (not (request.owner_id == owner_id)) ErrorKind.forbidden "해당 등록 요청에 접근할 권한이 없습니다."
    current ← expire_if_needed request_id request
    decide_pending owner_id request_id approved request current
