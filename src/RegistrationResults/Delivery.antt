-- ===== src/RegistrationResults/Delivery.antt =====
-- The delivery of a server's key to its daemon
-- (hub-api/src/server-registrations/server-registrations.service.ts, `getResult`).
use code_caller.Prelude.{
  ℕ, ◌≡◌, refl, String, true, false, some, arith, str_eq, inl, inr, Option-cases, Bool-cases,
}
use code_caller.Schema.{ServerRegistrationRequest, ServerRegistrationStatus}
use code_caller.Platform.{Platform}
use code_caller.Hub.{Hub, ok, err, Error, ErrorKind}
use code_caller.Crypto.{Sealed, hash_api_key}
use code_caller.Registrations.{DaemonResult, to_daemon_result}
use code_caller.RegistrationResults.{get_result, delivered, credential_of}

module _ ⦃pf : Platform⦄ (request_id : ℕ) (secret : String) (h : Hub) where
  -- Asking for the result of a request that exists with a secret whose hash is not the stored one
  -- is refused as unauthorized and changes nothing.
  pub get_result_wrong_secret :
      {r : ServerRegistrationRequest}
      → pf.registrations.find_unique request_id h.registrations ≡ some r
      → str_eq r.request_secret_hash (hash_api_key secret) ≡ false
      → (e : Error) × (e.kind ≡ ErrorKind.unauthorized)
        × (get_result request_id secret h ≡ (err e, h))
  unfolding get_result
  get_result_wrong_secret {r} found wrong = elim (Bool-cases (str_eq secret "")) [
    | inl empty ↦ (
      record { kind = ErrorKind.unauthorized; message = "등록 요청 secret이 필요합니다." },
      refl,
      ground arith,
    )
    | inr given ↦ (
      record { kind = ErrorKind.unauthorized; message = "등록 요청 secret이 올바르지 않습니다." },
      refl,
      ground arith,
    )
  ]

  module _ {r : ServerRegistrationRequest} {server_id : ℕ} {c : Sealed} {key : String}
      (found : pf.registrations.find_unique request_id h.registrations ≡ some r)
      (given : str_eq secret "" ≡ false)
      (right : str_eq r.request_secret_hash (hash_api_key secret) ≡ true)
      (approved : r.status ≡ ServerRegistrationStatus.approved)
      (kept : credential_of r ≡ some (server_id, c))
      (opens : pf.aes_decrypt (pf.sha256 r.request_secret_hash) c.iv c.auth_tag c.ciphertext
        ≡ some key) where
    abbrev pub handed_over : DaemonResult
    handed_over = record (to_daemon_result request_id r) {
      status = ServerRegistrationStatus.approved;
      server_id = some server_id;
      api_key = some key;
    }

    -- The secret of an approved request gets the key, and the row forgets it.
    pub get_result_delivers : get_result request_id secret h ≡ (
      ok handed_over,
      record h { registrations = pf.registrations.update request_id delivered h.registrations },
    )
    unfolding get_result
    get_result_delivers = ground arith

  -- An answer that carries a key was for an approved request, which is marked as delivered.
  pub delivers_only :
      {d : DaemonResult} {key : String}
      → (get_result request_id secret h).0 ≡ ok d
      → d.api_key ≡ some key
      → (r : ServerRegistrationRequest) × (pf.registrations.find_unique request_id
            (get_result request_id secret h).1.registrations
          ≡ some (delivered r))
  unfolding get_result
  delivers_only done carries =
      elim (Option-cases (pf.registrations.find_unique request_id h.registrations)) [
        | inl missing ↦ absurd (ground arith)
        | inr (r, found) ↦ (
          r,
          ground
              (arith, pf.registrations.find-update request_id delivered request_id h.registrations),
        )
      ]
