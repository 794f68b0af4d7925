-- ===== src/RegistrationResults/Lifecycle.antt =====
-- The life of a registration request under all that the hub does with requests
-- (hub-api/src/server-registrations/server-registrations.service.ts, and the removal of a server).
use mathlib.Core.Option
use code_caller.Prelude.{
  refl, none, String, ℕ, ◌+◌, ◌≡◌, ◌∙◌, ap, String, Bool, true, false, Option, some, List, [], ◌∷◌,
  arith, ◌==◌, inl, inr, Bool-cases, Option-cases,
}
use code_caller.Schema.{ServerRegistrationRequest, ServerRegistrationStatus}
use code_caller.Platform.{Platform}
use code_caller.Hub.{Hub, ok}
use code_caller.Servers.{remove, unlink}
use code_caller.Registrations.{
  DaemonResult, CreateRequest, create, find_pending_for_owner, is_overdue, expire,
}
use code_caller.RegistrationDecisions.{decide}
use code_caller.RegistrationResults.{get_result}
use code_caller.RegistrationResults.Delivery.{delivers_only}

-- What may happen to the requests: the operations, and that time passes.
pub data Event : Type 0 where
  created : CreateRequest → Event
  listed : (owner_id : ℕ) → Event
  decided : (owner_id request_id : ℕ) → (approve : Bool) → Event
  asked : (request_id : ℕ) → (secret : String) → Event
  removed : (owner_id server_id : ℕ) → Event
  passed : (ms : ℕ) → Event

-- The statuses that nothing leaves.
abbrev pub is_final : ServerRegistrationStatus → Bool
is_final ServerRegistrationStatus.pending = false
is_final ServerRegistrationStatus.approved = false
is_final ServerRegistrationStatus.rejected = true
is_final ServerRegistrationStatus.expired = true
is_final ServerRegistrationStatus.credential_delivered = true

module _ ⦃pf : Platform⦄ where
  unfoldable pub perform : Event → Hub → Hub
  perform (created dto) h = (create dto h).1
  perform (listed owner_id) h = (find_pending_for_owner owner_id h).1
  perform (decided owner_id request_id approve) h = (decide owner_id request_id approve h).1
  perform (asked request_id secret) h = (get_result request_id secret h).1
  perform (removed owner_id server_id) h = (remove owner_id server_id h).1
  perform (passed ms) h = record h { clock = h.clock + ms }

  unfoldable pub perform_all : List Event → Hub → Hub
  unfolding perform
  perform_all [] h = h
  perform_all (e ∷ l) h = perform_all l (perform e h)

  abbrev pub status_at : ℕ → Hub → Option ServerRegistrationStatus
  status_at i h = Option.map (λ r. r.status) (pf.registrations.find_unique i h.registrations)

module _ ⦃pf : Platform⦄ (i : ℕ) (h : Hub) {r : ServerRegistrationRequest}
    (there : pf.registrations.find_unique i h.registrations ≡ some r)
    (final : is_final r.status ≡ true) where
  keeps_create :
      (row : ServerRegistrationRequest)
      → pf.registrations.find_unique i (pf.registrations.create row h.registrations) ≡ some r
  keeps_create row = ground (
    arith,
    pf.registrations.find-create row i h.registrations,
    pf.registrations.find-next_id h.registrations,
  )

  keeps_update :
      (j : ℕ) (f : ServerRegistrationRequest → ServerRegistrationRequest)
      → (i == j) ≡ false
      → pf.registrations.find_unique i (pf.registrations.update j f h.registrations) ≡ some r
  keeps_update j f other = ground (arith, pf.registrations.find-update j f i h.registrations)

  after_create :
      (dto : CreateRequest) → pf.registrations.find_unique i (create dto h).1.registrations ≡ some r
  unfolding create
  after_create dto = grind (arith, keeps_create)

  after_list :
      (owner_id : ℕ)
      → pf.registrations.find_unique i (find_pending_for_owner owner_id h).1.registrations ≡ some r
  unfolding find_pending_for_owner
  after_list owner_id =
      ground (
        arith,
        pf.registrations.find-update_many (λ _. is_overdue h.clock) expire i h.registrations,
      )

  after_decide :
      (owner_id j : ℕ) (approve : Bool)
      → pf.registrations.find_unique i (decide owner_id j approve h).1.registrations ≡ some r
  unfolding decide
  after_decide owner_id j approve = elim (Bool-cases (i == j)) [
    | inl same ↦ ground arith
    | inr other ↦ grind (arith, keeps_update)
  ]

  after_ask :
      (j : ℕ) (secret : String)
      → pf.registrations.find_unique i (get_result j secret h).1.registrations ≡ some r
  unfolding get_result
  after_ask j secret = elim (Bool-cases (i == j)) [
    | inl same ↦ ground arith
    | inr other ↦ grind (arith, keeps_update)
  ]

  after_remove :
      (owner_id server_id : ℕ) → status_at i (remove owner_id server_id h).1 ≡ some r.status
  unfolding remove
  after_remove owner_id server_id =
      ground (
        arith,
        pf.registrations.find-update_many (λ _ _. true) (unlink server_id) i h.registrations,
      )

  after_perform : (e : Event) → status_at i (perform e h) ≡ some r.status
  unfolding perform
  after_perform (created dto) = ap (Option.map (λ r. r.status)) (after_create dto)
  after_perform (listed owner_id) = ap (Option.map (λ r. r.status)) (after_list owner_id)
  after_perform (decided owner_id j approve) =
      ap (Option.map (λ r. r.status)) (after_decide owner_id j approve)
  after_perform (asked j secret) = ap (Option.map (λ r. r.status)) (after_ask j secret)
  after_perform (removed owner_id server_id) = after_remove owner_id server_id
  after_perform (passed ms) = ap (Option.map (λ r. r.status)) there

module _ ⦃pf : Platform⦄ (i : ℕ) {status : ServerRegistrationStatus}
    (final : is_final status ≡ true) where
  -- A registration request that was rejected, has expired or whose key was delivered keeps that
  -- status through every sequence of requests, listings, decisions, answers to daemons, removals
  -- of servers and of time that passes.
  pub final_stays :
      (events : List Event) (h : Hub)
      → status_at i h ≡ some status
      → status_at i (perform_all events h) ≡ some status
  unfolding perform_all
  final_stays [] h at = at
  final_stays (e ∷ l) h at = elim (Option-cases (pf.registrations.find_unique i h.registrations)) [
    | inl gone ↦ absurd (ground arith)
    | inr (r, there) ↦
        let same : r.status ≡ status = ground arith in
        final_stays l (perform e h) (after_perform i h there (ground arith) e ∙ ap some same)
  ]

module _ ⦃pf : Platform⦄ (request_id : ℕ) (secret : String) (h : Hub) where
  -- A request that was delivered gives no key, to any secret.
  no_key_after :
      {d : DaemonResult}
      → status_at request_id h ≡ some ServerRegistrationStatus.credential_delivered
      → (get_result request_id secret h).0 ≡ ok d
      → d.api_key ≡ none
  unfolding get_result
  no_key_after at done =
      elim (Option-cases (pf.registrations.find_unique request_id h.registrations)) [
        | inl gone ↦ absurd (ground arith)
        | inr (r, there) ↦
            let settled : r.status ≡ ServerRegistrationStatus.credential_delivered = ground arith in
            ground arith
      ]

module _ ⦃pf : Platform⦄ (request_id : ℕ) (secret : String) (h : Hub) where
  -- The key of a server is handed out once: after an answer to a daemon that carries a key, and
  -- after any sequence of requests, listings, decisions, answers, removals of servers and of time
  -- that passes, no answer for the same request, to any secret, carries one.
  pub key_delivered_once :
      (events : List Event) (secret' : String) {d d' : DaemonResult} {key : String}
      → (get_result request_id secret h).0 ≡ ok d
      → d.api_key ≡ some key
      → (get_result request_id secret' (perform_all events (get_result request_id secret h).1)).0
        ≡ ok d'
      → d'.api_key ≡ none
  key_delivered_once events secret' done carries again =
      let h₁ = (get_result request_id secret h).1 in
      let (r, row) = delivers_only request_id secret h done carries in
      let at =
        final_stays request_id {status = ServerRegistrationStatus.credential_delivered} refl events
          h₁ (ap (Option.map (λ r. r.status)) row) in
      no_key_after request_id secret' (perform_all events h₁) at again
