-- ===== src/RegistrationResults.antt =====
-- hub-api/src/server-registrations/server-registrations.service.ts: what a daemon gets to know.
pub mod Delivery
pub mod Onboarding
pub mod Lifecycle
use code_caller.Prelude.{ℕ, String, not, Option, none, some, if◌then◌else◌, str_eq}
use code_caller.Schema.{
  ServerRegistrationRequest, ServerRegistrationStatus, is_approved_registration,
}
use code_caller.Platform.{Platform}
use code_caller.Hub.{Action, ErrorKind, pure, or_raise, raise_if, gets, ◌>>=◌, ◌>>◌}
use code_caller.Prisma.{registration_update}
use code_caller.Crypto.{Sealed, hash_api_key, decrypt_for_request_secret}
use code_caller.Registrations.{DaemonResult, to_daemon_result, nonempty_text, expire_if_needed}

module _ ⦃pf : Platform⦄ where
  -- the columns that the delivery clears
  abbrev pub delivered : ServerRegistrationRequest → ServerRegistrationRequest
  delivered r = record r {
    status = ServerRegistrationStatus.credential_delivered;
    api_key_ciphertext = none;
    api_key_iv = none;
    api_key_auth_tag = none;
  }

  -- the columns that `getResult` wants to be there
  abbrev pub credential_of : ServerRegistrationRequest → Option (ℕ × Sealed)
  credential_of r = elim r.server_id [
    | none ↦ none
    | some i ↦ elim (nonempty_text r.api_key_ciphertext) [
      | none ↦ none
      | some c ↦ elim (nonempty_text r.api_key_iv) [
        | none ↦ none
        | some iv ↦ elim (nonempty_text r.api_key_auth_tag) [
          | none ↦ none
          | some tag ↦ some (i, record { ciphertext = c; iv = iv; auth_tag = tag })
        ]
      ]
    ]
  ]

  unfoldable pub deliver : ℕ → ServerRegistrationRequest → ℕ × Sealed → Action DaemonResult
  unfolding decrypt_for_request_secret registration_update
  deliver request_id current (server_id, payload) = do
    api_key ← decrypt_for_request_secret payload current.request_secret_hash
    row ← registration_update request_id delivered
    pure (record (to_daemon_result request_id row) {
      status = ServerRegistrationStatus.approved;
      server_id = some server_id;
      api_key = some api_key;
    })

  unfoldable pub result_of : ℕ → ServerRegistrationRequest → Action DaemonResult
  unfolding deliver
  result_of request_id current h =
      if not (is_approved_registration current.status)
      then pure (to_daemon_result request_id current) h
      else elim (credential_of current) [
        | none ↦ pure (to_daemon_result request_id current) h
        | some c ↦ deliver request_id current c h
      ]

  unfoldable pub get_result : ℕ → String → Action DaemonResult
  unfolding expire_if_needed result_of
  get_result request_id secret = do
    raise_if (str_eq secret "") ErrorKind.unauthorized "등록 요청 secret이 필요합니다."
    found ← gets (λ h. pf.registrations.find_unique request_id h.registrations)
    request ← or_raise found ErrorKind.not_found "서버 등록 요청을 찾을 수 없습니다."
    raise_if (not (str_eq request.request_secret_hash (hash_api_key secret))) ErrorKind.unauthorized
        "등록 요청 secret이 올바르지 않습니다."
    current ← expire_if_needed request_id request
    result_of request_id current
