-- ===== src/Realtime.antt =====
-- hub-api/src/realtime/realtime.service.ts, and what it calls of the gateways
-- hub-api/src/realtime/daemon.gateway.ts and hub-api/src/realtime/app.gateway.ts.
use code_caller.Prelude.{ℕ, String, ◌<>◌, Bool, true, false, not, List, [], ◌∷◌}
use code_caller.Events.{DaemonOutbound, AppOutbound}
use code_caller.Platform.{Platform}
use code_caller.Hub.{Hub, Action, ErrorKind, to_server, to_user, gets, send, raise_if, ◌>>=◌, ◌>>◌}

abbrev pub nonempty {ℓ} : {A : Type ℓ} → List A → Bool
nonempty [] = false
nonempty (a ∷ l) = true

module _ ⦃pf : Platform⦄ where
  -- `isServerOnline`
  unfoldable pub is_server_online : ℕ → Hub → Bool
  is_server_online server_id h = nonempty (pf.rooms.fetch_sockets server_id h.rooms)

  -- the message of the exception of `dispatchToServer`
  abbrev pub not_connected : ℕ → String
  not_connected server_id = "서버(" <> (pf.id_text server_id <> ")의 Agent Daemon이 연결되어 있지 않습니다.")

  unfoldable pub dispatch_to_server : ℕ → DaemonOutbound → Action (Unit {0})
  dispatch_to_server server_id event = do
    online ← gets (is_server_online server_id)
    raise_if (not online) ErrorKind.service_unavailable (not_connected server_id)
    send (to_server server_id event)

  abbrev pub notify_user : ℕ → AppOutbound → Action (Unit {0})
  notify_user user_id event = send (to_user user_id event)
