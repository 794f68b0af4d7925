-- ===== src/Tests/Sessions.antt =====
-- The theorems on sessions, servers, sockets and push tokens at a concrete hub.
use code_caller.Prelude.{
  [], ◌∷◌, ◌⊎◌, List, ℕ, ◌≡◌, refl, true, none, some, ◌≢◌, In, head, tail, ◌<◌, ◌+◌, is_some,
}
use code_caller.Database.{Sets}
use code_caller.Database.Memory.{get, select, best}
use code_caller.Schema.{PushPlatform, RefreshToken, ServerStatus, WorkerType, Server}
use code_caller.Platform.Memory.{memory, someone}
use code_caller.Hub.{Hub, ok}
use code_caller.Crypto.Secrets.{stored}
use code_caller.Notifications.{is_token_of}
use code_caller.Prelude.{List, [], ◌∷◌}
use code_caller.Text.{decimal}
use code_caller.Tasks.{CreateTask}
use code_caller.Duration.{duration_to_ms}
use code_caller.Realtime.{is_server_online}
use code_caller.Gateway.{disconnect}
use code_caller.Gateway.Connections.{offline_while_connected}
use code_caller.Auth.{
  TokenPair, refresh, stored_token, is_live_token, config_get, hash_token, revoke,
}
use code_caller.Auth.Sessions.{refresh_rotates}
use code_caller.Gateway.Apps.{
  SocketEvent, connects, run_sockets, on_socket, handle_app_connection, user_of, Showed,
  run_sockets-hears,
}
use code_caller.Tests.World.{world, live, server}

live_stored : stored_token 0 "#token" world ≡ some (0, live)
unfolding stored_token select best
live_stored = refl

abbrev new_pair : TokenPair
new_pair = record { access_token = "5000000"; refresh_token = "5000000" }

refreshed : (refresh "token" world).0 ≡ ok new_pair
unfolding refresh decimal stored_token select best duration_to_ms
refreshed = refl

refresh_rotates_example :
    let h' = (refresh "token" world).1 in
    let hashed = hash_token new_pair.refresh_token in
    (memory.refresh_tokens.find_unique 0 h'.refresh_tokens ≡ some (revoke live))
    × ((ms : ℕ) × (duration_to_ms (config_get "JWT_REFRESH_EXPIRES_IN" "30d") ≡ some ms)
        × ((j : ℕ) × (r : RefreshToken) × (memory.refresh_tokens.find_unique j h'.refresh_tokens
              ≡ some r)
            × (is_live_token 0 hashed r ≡ true)
            × (r.expires_at ≡ world.clock + ms)
            × (j ≢ 0))
        × ((now : ℕ)
            → now < world.clock + ms
            → is_some (stored_token 0 hashed (record h' { clock = now })) ≡ true))
refresh_rotates_example =
    refresh_rotates "token" world {payload = someone} {i = 0} {t = live} refl live_stored refreshed

-- Server 2 belongs to user 1, server 0 to user 0.
abbrev gamma : Server
gamma = server 1 "gamma" "#key-c" ServerStatus.online

abbrev alpha : Server
alpha = server 0 "alpha" "#key-a" ServerStatus.online

gamma_there : memory.servers.find_unique 2 world.servers ≡ some gamma
unfolding get
gamma_there = refl

alpha_there : memory.servers.find_unique 0 world.servers ≡ some alpha
unfolding get
alpha_there = refl

abbrev intruding : CreateTask
intruding = record { server_id = 2; worker_type = WorkerType.codex; input = "" }

-- Server 3 has two sockets, 12 and 13.
abbrev delta : Server
delta = server 0 "delta" "#key-d" ServerStatus.offline

delta_there : memory.servers.find_unique 3 world.servers ≡ some delta
unfolding get
delta_there = refl

both_inside : In 13 (memory.rooms.fetch_sockets 3 world.rooms)
both_inside = tail (head refl)

offline_while_connected_example :
    let h' = (disconnect 12 world).1 in
    (is_server_online 3 h' ≡ true)
    × Sets memory.servers 3
        (record delta { status = ServerStatus.offline })
        world.servers
        h'.servers
offline_while_connected_example =
    offline_while_connected 12 world 13 refl delta_there both_inside (λ e. cc)

-- The token was registered before, with the draw 0.
abbrev registered : Hub
registered = record world {
  draws = 5;
  push_tokens =
      some (record { user_id = 0; token = "0:tag:tok"; platform = PushPlatform.android }) ∷ [];
}

not_the_same :
    memory.push_tokens.find_first
      (λ _. 0)
      (is_token_of 0 (stored "tok" "secret" registered))
      registered.push_tokens
    ≡ none
unfolding select best decimal
not_the_same = refl

-- A socket of the app with a token of user 0.
abbrev app_sockets : List SocketEvent
app_sockets = connects 0 7 (some "token") ∷ []

socket_there : In 7 (memory.rooms.fetch_sockets 0 (run_sockets app_sockets []))
unfolding run_sockets on_socket handle_app_connection user_of
socket_there = head refl

run_sockets-hears_example : In 7 (memory.rooms.fetch_sockets 0 []) ⊎ Showed 7 0 app_sockets
run_sockets-hears_example = run_sockets-hears 7 0 app_sockets [] socket_there
