-- ===== src/Gateway/Connections.antt =====
-- The sockets of a server's daemon (hub-api/src/realtime/daemon.gateway.ts).
use code_caller.Prelude.{
  inl, ==_refl, str_eq, ℕ, ◌≡◌, ◌≢◌, refl, String, true, false, none, some, List, [], ◌∷◌, arith,
  In,
}
use code_caller.Database.{Sets}
use code_caller.Schema.{Server, online, offline}
use code_caller.Platform.{Platform}
use code_caller.Hub.{Hub, ok}
use code_caller.Realtime.{is_server_online, nonempty}
use code_caller.Servers.{find_by_api_key}
use code_caller.Gateway.{handle_connection, disconnect}

In-nonempty : {s : ℕ} (l : List ℕ) → In s l → nonempty l ≡ true
In-nonempty [] m = elim m [ ]
In-nonempty (x ∷ l) m = refl

module _ ⦃pf : Platform⦄ (socket : ℕ) (h : Hub) where
  -- A socket whose key, empty or not, belongs to no server is turned away, and nothing changes.
  pub connection_refused :
      (api_key : String)
      → find_by_api_key api_key h ≡ none
      → handle_connection socket (some api_key) h ≡ (ok false, h)
  unfolding handle_connection
  connection_refused String.[] unknown = refl
  connection_refused (String.◌∷◌ c s) unknown = ground arith

  -- When one socket of a server that exists disconnects while another is in its room, the server
  -- is marked as offline, and no other server changes, though its daemon can still be reached.
  pub offline_while_connected :
      {server_id : ℕ} {s : Server} (other : ℕ)
      → h.socket_data socket ≡ some server_id
      → pf.servers.find_unique server_id h.servers ≡ some s
      → In other (pf.rooms.fetch_sockets server_id h.rooms)
      → other ≢ socket
      → let h' = (disconnect socket h).1 in
        (is_server_online server_id h' ≡ true)
        × Sets pf.servers server_id (record s { status = offline }) h.servers h'.servers
  unfolding disconnect is_server_online
  offline_while_connected {server_id} {s} other its there inside differs = (
    ground (
      arith,
      In-nonempty (pf.rooms.fetch_sockets server_id (pf.rooms.leave socket h.rooms))
          ((pf.rooms.fetch-leave other server_id socket h.rooms).1 (inside, differs)),
    ),
    λ j. ground (
      arith,
      there,
      pf.servers.find-update server_id (λ s. record s { status = offline }) j h.servers,
    ),
  )

module _ ⦃pf : Platform⦄ (socket : ℕ) (h : Hub) {server_id : ℕ} {s : Server}
    (there : pf.servers.find_unique server_id h.servers ≡ some s) where
  -- the row of a server that has just been heard of
  abbrev pub heard : Server
  heard = record s { status = online; last_heartbeat_at = some h.clock }

  joined :
      nonempty (pf.rooms.fetch_sockets server_id (pf.rooms.join socket server_id h.rooms)) ≡ true
  joined =
      In-nonempty (pf.rooms.fetch_sockets server_id (pf.rooms.join socket server_id h.rooms))
        ((pf.rooms.fetch-join socket server_id socket server_id h.rooms).1 (inl (refl, refl)))

  -- A socket whose key is not empty and is that of a server is kept and remembered as that
  -- server's, the server counts as connected afterwards, and that server alone is marked as
  -- online, with the time of the connection.
  pub connection_accepted :
      (api_key : String)
      → str_eq api_key "" ≡ false
      → find_by_api_key api_key h ≡ some (server_id, s)
      → let (r, h') = handle_connection socket (some api_key) h in
        (r ≡ ok true)
        × (h'.socket_data socket ≡ some server_id)
        × (is_server_online server_id h' ≡ true)
        × Sets pf.servers server_id heard h.servers h'.servers
  unfolding handle_connection is_server_online
  connection_accepted String.[] given known = absurd (ground arith)
  connection_accepted (String.◌∷◌ c rest) given known = (
    ground arith,
    ground (arith, ==_refl socket),
    ground (arith, joined),
    λ j. ground (
      arith,
      there,
      pf.servers.find-update server_id
          (λ s. record s { status = online; last_heartbeat_at = some h.clock }) j h.servers,
    ),
  )
