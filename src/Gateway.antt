-- ===== src/Gateway.antt =====
-- hub-api/src/realtime/daemon.gateway.ts: the sockets of the daemons, and what they send. The
-- handlers of the services hear of it through `EventEmitter2`, which keeps their errors from the
-- gateway.
pub mod Connections
pub mod Apps
use code_caller.Prelude.{ℕ, String, Bool, true, false, Option, none, some, ◌==◌, if◌then◌else◌}
use code_caller.Events.{
  DaemonInbound, heartbeat, task_status_update, task_log, task_result, approval_request,
}
use code_caller.Platform.{Platform}
use code_caller.Hub.{Hub, Action, pure, modify, try_catch, ◌>>◌}
use code_caller.Servers.{mark_heartbeat, mark_offline, find_by_api_key}
use code_caller.Tasks.{handle_daemon_task_status}
use code_caller.TaskResults.{handle_daemon_task_log, handle_daemon_task_result}
use code_caller.Approvals.{handle_daemon_approval_request}

module _ ⦃pf : Platform⦄ where
  -- `socket.data.serverId = …` and `socket.join(serverRoom(…))`
  abbrev pub admitted : ℕ → ℕ → Hub → Hub
  admitted socket server_id h = record h {
    socket_data = λ s. if s == socket then some server_id else h.socket_data s;
    rooms = pf.rooms.join socket server_id h.rooms;
  }

  admit : ℕ → String → Action Bool
  admit socket api_key h = elim (find_by_api_key api_key h) [
    | none ↦ pure false h
    | some (server_id, _) ↦
        (do modify (admitted socket server_id); mark_heartbeat server_id; pure true) h
  ]

  -- Whether the socket stays connected.
  unfoldable pub handle_connection : ℕ → Option String → Action Bool
  unfolding admit find_by_api_key mark_heartbeat
  handle_connection socket none = pure false
  handle_connection socket (some String.[]) = pure false
  handle_connection socket (some api_key) = admit socket api_key

  unfoldable pub handle_disconnect : ℕ → Action (Unit {0})
  unfolding mark_offline
  handle_disconnect socket h = elim (h.socket_data socket) [
    | none ↦ pure tt h
    | some server_id ↦ mark_offline server_id h
  ]

  -- A socket goes: Socket.io takes it out of its rooms and calls the handler.
  unfoldable pub disconnect : ℕ → Action (Unit {0})
  unfolding handle_disconnect
  disconnect socket = do
    modify λ h. record h { rooms = pf.rooms.leave socket h.rooms }
    handle_disconnect socket

  unfoldable pub on_heartbeat : ℕ → Action (Unit {0})
  unfolding mark_heartbeat
  on_heartbeat socket h = elim (h.socket_data socket) [
    | none ↦ pure tt h
    | some server_id ↦ mark_heartbeat server_id h
  ]

  abbrev pub emit : Action (Unit {0}) → Action (Unit {0})
  emit handler = try_catch handler (λ _. pure tt)

  unfoldable pub on_message : ℕ → DaemonInbound → Action (Unit {0})
  unfolding on_heartbeat handle_daemon_task_status handle_daemon_task_log handle_daemon_task_result
      handle_daemon_approval_request
  on_message socket heartbeat = on_heartbeat socket
  on_message socket (task_status_update p) = emit (handle_daemon_task_status p)
  on_message socket (task_log p) = emit (handle_daemon_task_log p)
  on_message socket (task_result p) = emit (handle_daemon_task_result p)
  on_message socket (approval_request p) = emit (handle_daemon_approval_request p)
