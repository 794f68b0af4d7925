-- ===== src/RegistrationResults/Onboarding.antt =====
-- From the owner's approval to a daemon that can connect
-- (hub-api/src/server-registrations/server-registrations.service.ts and
-- hub-api/src/servers/servers.service.ts).
use code_caller.Prelude.{
  ℕ, ap, ◌≡◌, ◌≤◌, refl, String, true, false, some, arith, ==_refl, str_eq, eq_iff, Option-cases,
  inl, inr,
}
use code_caller.Schema.{Server, ServerRegistrationRequest, ServerRegistrationStatus}
use code_caller.Platform.{Platform}
use code_caller.Hub.{Hub, ok}
use code_caller.Crypto.{hash_api_key}
use code_caller.Servers.{find_by_api_key, new_server}
use code_caller.Registrations.{DaemonResult, nonempty_text}
use code_caller.RegistrationDecisions.{decide, approved_with}
use code_caller.RegistrationDecisions.Approval.{drawn_key, sealed_key, approve_effect}
use code_caller.RegistrationResults.{get_result, delivered}
use code_caller.RegistrationResults.Delivery.{handed_over, get_result_delivers}

module _ ⦃pf : Platform⦄ (key : String) (h : Hub) where
  -- A key whose hash a server has is accepted, as the key of a server with that hash.
  pub find_by_api_key_found :
      (i : ℕ) {s : Server}
      → pf.servers.find_unique i h.servers ≡ some s
      → s.api_key_hash ≡ hash_api_key key
      → (j : ℕ) × (r : Server) × (find_by_api_key key h ≡ some (j, r))
        × (pf.servers.find_unique j h.servers ≡ some r)
        × (r.api_key_hash ≡ hash_api_key key)
  unfolding find_by_api_key
  find_by_api_key_found i {s} found hashed =
      let p = λ (_ : ℕ) (s : Server). str_eq s.api_key_hash (hash_api_key key) in
      elim (Option-cases (find_by_api_key key h)) [
        | inl nobody ↦
            let no = pf.servers.find_first_none (λ _. 0) p h.servers i s nobody found in
            absurd (ground (arith, eq_iff s.api_key_hash (hash_api_key key)))
        | inr ((j, r), e) ↦
            let (row, fits) = pf.servers.find_first_sound (λ _. 0) p h.servers j r e in
            (j, r, e, row, (eq_iff r.api_key_hash (hash_api_key key)).0 fits)
      ]

module _ ⦃pf : Platform⦄ (owner_id request_id : ℕ) (secret : String) (h : Hub)
    {r : ServerRegistrationRequest}
    (found : pf.registrations.find_unique request_id h.registrations ≡ some r)
    (owned : r.owner_id ≡ owner_id) (waits : r.status ≡ ServerRegistrationStatus.pending)
    (timely : h.clock ≤ r.expires_at) (given : str_eq secret "" ≡ false)
    (right : str_eq r.request_secret_hash (hash_api_key secret) ≡ true) where
  -- the three columns hold something
  abbrev pub IsStorable : Type 0
  IsStorable =
      let e = sealed_key r h in
      (nonempty_text (some e.ciphertext) ≡ some e.ciphertext)
      × (nonempty_text (some e.iv) ≡ some e.iv)
      × (nonempty_text (some e.auth_tag) ≡ some e.auth_tag)

  -- For a pending request of the owner's that has not expired, whose secret is not empty and is
  -- given, and whose encrypted key has no empty part: after the owner's approval the daemon gets
  -- a new server's id with its key, and the hub accepts that key, as that of a server with the
  -- key's hash.
  pub onboarding :
      IsStorable
      → let h₁ = (decide owner_id request_id true h).1 in
        let (o, h₂) = get_result request_id secret h₁ in
        let key = drawn_key h in
        (d : DaemonResult) × (j : ℕ) × (s : Server) × (o ≡ ok d)
        × (d.api_key ≡ some key)
        × (d.server_id ≡ some (pf.servers.next_id h.servers))
        × (find_by_api_key key h₂ ≡ some (j, s))
        × (s.api_key_hash ≡ hash_api_key key)
  onboarding storable =
      let server_id = pf.servers.next_id h.servers in
      let sealed = sealed_key r h in
      let row = approved_with server_id sealed r in
      let h₁ = (decide owner_id request_id true h).1 in
      let effect = approve_effect owner_id request_id h found owned waits timely in
      let stored : pf.registrations.find_unique request_id h₁.registrations ≡ some row =
        ground (arith, effect.1 request_id, ==_refl request_id) in
      let new =
        new_server owner_id r.name r.os_type r.tailscale_ip (hash_api_key (drawn_key h)) h.clock in
      let there : pf.servers.find_unique server_id h₁.servers ≡ some new =
        ground (arith, effect.2 server_id, ==_refl server_id) in
      let opens =
        pf.aes_decrypt-encrypt (pf.sha256 r.request_secret_hash) sealed.iv (drawn_key h) in
      let answer =
        get_result_delivers request_id secret h₁ {r = row} {server_id = server_id} {c = sealed}
          {key = drawn_key h} stored given right refl (ground arith) opens in
      let h₂ : Hub = record h₁ {
        registrations = pf.registrations.update request_id delivered h₁.registrations;
      } in
      let (j, s, accepted, _, hashed) =
        find_by_api_key_found (drawn_key h) h₂ server_id there refl in
      (
        handed_over request_id secret h₁ {r = row} {server_id = server_id} {c = sealed} stored given
            right refl (ground arith) opens,
        j,
        s,
        ap (λ x. x.0) answer,
        refl,
        refl,
        rw answer accepted,
        hashed,
      )
