-- ===== src/RegistrationDecisions/Approval.antt =====
-- What the owner's decision on a registration does
-- (hub-api/src/server-registrations/server-registrations.service.ts, `decide`).
use code_caller.Prelude.{ℕ, suc, ◌≡◌, ◌≤◌, ◌<◌, String, Bool, true, false, some, arith}
use code_caller.Database.{Sets}
use code_caller.Schema.{
  ServerRegistrationRequest, ServerRegistrationStatus, is_pending_registration,
}
use code_caller.Platform.{Platform}
use code_caller.Hub.{Hub, ok}
use code_caller.Crypto.{Sealed, hash_api_key}
use code_caller.Servers.{new_server}
use code_caller.Registrations.{to_public, expire}
use code_caller.RegistrationDecisions.{decide, approved_with}

module _ ⦃pf : Platform⦄ where
  -- The key that is drawn, and how it is kept for the daemon of a request.
  abbrev pub drawn_key : Hub → String
  drawn_key h = pf.random_hex 32 h.draws

  abbrev pub sealed_key : ServerRegistrationRequest → Hub → Sealed
  sealed_key r h =
      let iv = pf.random_hex 12 (suc h.draws) in
      let e = pf.aes_encrypt (pf.sha256 r.request_secret_hash) iv (drawn_key h) in
      record { ciphertext = e.0; iv = iv; auth_tag = e.1 }

module _ ⦃pf : Platform⦄ (owner_id request_id : ℕ) (h : Hub) {r : ServerRegistrationRequest}
    (found : pf.registrations.find_unique request_id h.registrations ≡ some r)
    (owned : r.owner_id ≡ owner_id) where
  -- The owner's approval of a pending request that has not expired creates one server, which
  -- keeps the hash of a fresh key, and stores that key with the request, encrypted; no other
  -- server and no other request changes.
  pub approve_effect :
      r.status ≡ ServerRegistrationStatus.pending
      → h.clock ≤ r.expires_at
      → let (o, h') = decide owner_id request_id true h in
        let server_id = pf.servers.next_id h.servers in
        (o ≡ ok (to_public request_id (approved_with server_id (sealed_key r h) r)))
        × Sets pf.registrations request_id
            (approved_with server_id (sealed_key r h) r)
            h.registrations
            h'.registrations
        × Sets pf.servers server_id
            (new_server owner_id r.name r.os_type r.tailscale_ip
              (hash_api_key (drawn_key h))
              h.clock)
            h.servers
            h'.servers
  unfolding decide
  approve_effect waits timely = (
    ground arith,
    λ j. ground (
      arith,
      pf.registrations.find-update request_id
          (approved_with (pf.servers.next_id h.servers) (sealed_key r h)) j h.registrations,
    ),
    λ j. ground (
      arith,
      pf.servers.find-create
          (new_server owner_id r.name r.os_type r.tailscale_ip (hash_api_key (drawn_key h)) h.clock)
          j h.servers,
    ),
  )

  -- The owner's decision on a pending request whose time is over, whatever it is, creates no
  -- server: the request is marked as expired, and no other request changes.
  pub decide_overdue :
      (approve : Bool)
      → r.status ≡ ServerRegistrationStatus.pending
      → r.expires_at < h.clock
      → let (o, h') = decide owner_id request_id approve h in
        (o ≡ ok (to_public request_id (expire r)))
        × Sets pf.registrations request_id (expire r) h.registrations h'.registrations
        × (h'.servers ≡ h.servers)
  unfolding decide
  decide_overdue approve waits late = (
    ground arith,
    λ j. ground (arith, pf.registrations.find-update request_id expire j h.registrations),
    ground arith,
  )

  -- A request that was decided, has expired or was delivered stays as it is.
  pub decide_settled :
      (approve : Bool)
      → is_pending_registration r.status ≡ false
      → decide owner_id request_id approve h ≡ (ok (to_public request_id r), h)
  unfolding decide
  decide_settled approve settled = ground arith
