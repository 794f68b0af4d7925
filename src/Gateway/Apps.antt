-- ===== src/Gateway/Apps.antt =====
-- hub-api/src/realtime/app.gateway.ts: the sockets of the apps, each in the room of the user whose
-- token it came with. The rooms of this namespace are a state of their own.
use code_caller.Prelude.{
  ℕ, String, ◌≡◌, ◌⊎◌, inl, inr, ap, Bool, true, false, Option, none, some, Option-cases, List, [],
  ◌∷◌, In, head, tail, map, arith,
}
use mathlib.Core.Path.{subst}
use code_caller.Events.{AppOutbound}
use code_caller.Platform.{Platform, Claims}

module _ ⦃pf : Platform⦄ where
  abbrev subject : Option Claims → Option ℕ
  subject none = none
  subject (some c) = some c.sub

  -- The user of a token that `jwt.verify` accepts at a time; without the secret there is an exception.
  unfoldable pub user_of : ℕ → Option String → Option ℕ
  user_of clock none = none
  user_of clock (some String.[]) = none
  user_of clock (some token) = elim (pf.env "JWT_ACCESS_SECRET") [
    | none ↦ none
    | some secret ↦ subject (pf.jwt_verify secret token clock)
  ]

  -- Whether the socket stays connected, and the rooms.
  unfoldable pub handle_app_connection :
      ℕ → ℕ → Option String → pf.rooms.State → Bool × pf.rooms.State
  unfolding user_of
  handle_app_connection clock socket token rooms = elim (user_of clock token) [
    | none ↦ (false, rooms)
    | some user_id ↦ (true, pf.rooms.join socket user_id rooms)
  ]

  -- `emitToUser`: the sockets that get an event
  unfoldable pub emit_to_user : ℕ → AppOutbound → pf.rooms.State → List (ℕ × AppOutbound)
  emit_to_user user_id event rooms = map (λ s. (s, event)) (pf.rooms.fetch_sockets user_id rooms)

  pub data SocketEvent : Type 0 where
    connects : (clock socket : ℕ) → Option String → SocketEvent
    disconnects : (socket : ℕ) → SocketEvent

  unfoldable pub on_socket : SocketEvent → pf.rooms.State → pf.rooms.State
  unfolding handle_app_connection
  on_socket (connects clock socket token) rooms = (handle_app_connection clock socket token rooms).1
  on_socket (disconnects socket) rooms = pf.rooms.leave socket rooms

  unfoldable pub run_sockets : List SocketEvent → pf.rooms.State → pf.rooms.State
  unfolding on_socket
  run_sockets [] rooms = rooms
  run_sockets (e ∷ l) rooms = run_sockets l (on_socket e rooms)

  -- The socket came with a token of the user.
  abbrev pub Showed : ℕ → ℕ → List SocketEvent → Type 0
  Showed s u l =
      (clock : ℕ) × (token : Option String) × In (connects clock s token) l
      × (user_of clock token ≡ some u)

  refused :
      (clock socket : ℕ) (token : Option String) (rooms : pf.rooms.State)
      → user_of clock token ≡ none
      → on_socket (connects clock socket token) rooms ≡ rooms
  unfolding on_socket handle_app_connection
  refused clock socket token rooms e = ground arith

  joined :
      (clock socket user_id : ℕ) (token : Option String) (rooms : pf.rooms.State)
      → user_of clock token ≡ some user_id
      → on_socket (connects clock socket token) rooms ≡ pf.rooms.join socket user_id rooms
  unfolding on_socket handle_app_connection
  joined clock socket user_id token rooms e = ground arith

  module _ (s u : ℕ) where
    on_socket-hears :
        (e : SocketEvent) (rooms : pf.rooms.State)
        → In s (pf.rooms.fetch_sockets u (on_socket e rooms))
        → In s (pf.rooms.fetch_sockets u rooms) ⊎ Showed s u (e ∷ [])
    unfolding on_socket handle_app_connection
    on_socket-hears (disconnects socket) rooms m =
        inl (((pf.rooms.fetch-leave s u socket rooms).0 m).0)
    on_socket-hears (connects clock socket token) rooms m =
        elim (Option-cases (user_of clock token)) [
          | inl unknown ↦ inl (
              subst (λ k. In s (pf.rooms.fetch_sockets u k))
                (refused clock socket token rooms unknown) m)
          | inr (v, e) ↦
              elim ((pf.rooms.fetch-join s u socket v rooms).0 (
                subst (λ k. In s (pf.rooms.fetch_sockets u k)) (joined clock socket v token rooms e)
                  m)) [
                    | inl (p, q) ↦
                        inr (clock, token, head (ap (λ x. connects clock x token) p), ground arith)
                    | inr before ↦ inl before
                  ]
        ]

    -- After any connections and disconnections of the apps, a socket that gets the events of a
    -- user was in the room of that user before, or came with a token that the hub accepted as
    -- that user's.
    pub run_sockets-hears :
        (l : List SocketEvent) (rooms : pf.rooms.State)
        → In s (pf.rooms.fetch_sockets u (run_sockets l rooms))
        → In s (pf.rooms.fetch_sockets u rooms) ⊎ Showed s u l
    unfolding run_sockets
    run_sockets-hears [] rooms m = inl m
    run_sockets-hears (e ∷ l) rooms m = elim (run_sockets-hears l (on_socket e rooms) m) [
      | inl before ↦ elim (on_socket-hears e rooms before) [
        | inl earlier ↦ inl earlier
        | inr (clock, token, head p, k) ↦ inr (clock, token, head p, k)
        | inr (clock, token, tail n, k) ↦ absurd (elim n [ ])
      ]
      | inr (clock, token, n, k) ↦ inr (clock, token, tail n, k)
    ]
