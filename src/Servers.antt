-- ===== src/Servers.antt =====
-- hub-api/src/servers/servers.service.ts.
pub mod Ownership
use code_caller.Prelude.{
  ℕ, String, Bool, true, false, not, ◌||◌, Option, none, some, List, [], ◌∷◌, map, ◌==◌,
  if◌then◌else◌, str_eq,
}
use code_caller.Schema.{
  OsType, Server, ServerStatus, ServerRegistrationRequest, Task, WorkerProvider, online, offline,
}
use code_caller.Platform.{Platform}
use code_caller.Hub.{Hub, Action, ErrorKind, pure, or_raise, raise_if, gets, modify, ◌>>=◌, ◌>>◌}
use code_caller.Prisma.{server_update}
use code_caller.Crypto.{generate_api_key, hash_api_key}

pub record CreateServer : Type 0 where
  pub name : String
  pub os_type : OsType
  pub tailscale_ip : String

-- What `toPublic` shows of a server: not its owner and not the hash of its key.
pub record PublicServer : Type 0 where
  pub id : ℕ
  pub name : String
  pub os_type : OsType
  pub tailscale_ip : String
  pub status : ServerStatus
  pub last_heartbeat_at : Option ℕ
  pub created_at : ℕ

abbrev pub to_public : ℕ → Server → PublicServer
to_public i s = record {
  id = i;
  name = s.name;
  os_type = s.os_type;
  tailscale_ip = s.tailscale_ip;
  status = s.status;
  last_heartbeat_at = s.last_heartbeat_at;
  created_at = s.created_at;
}

abbrev pub has_id : ℕ → Option ℕ → Bool
has_id i none = false
has_id i (some j) = j == i

-- A profile that is created with its server.
pub record NewProfile : Type 0 where
  pub provider : WorkerProvider
  pub profile_name : String
  pub enabled : Bool
  pub capabilities : String

abbrev pub default_worker_profiles : List NewProfile
default_worker_profiles =
    record {
      provider = WorkerProvider.codex;
      profile_name = "default";
      enabled = true;
      capabilities =
          "{\"taskExecution\":true,\"approvals\":true,\"shell\":true,\"codeEditing\":true}";
    }
    ∷ []

module _ ⦃pf : Platform⦄ where
  -- the nested `create` of the profiles of a server
  pub create_profiles : ℕ → List NewProfile → pf.profiles.Rows → pf.profiles.Rows
  create_profiles server_id [] t = t
  create_profiles server_id (p ∷ l) t = create_profiles server_id l (
      pf.profiles.create
        (record {
          server_id = server_id;
          provider = p.provider;
          profile_name = p.profile_name;
          enabled = p.enabled;
          capabilities = p.capabilities;
        })
        t)

  -- `server.create` with `workerProfiles: { create: … }`
  unfoldable pub server_create : Server → List NewProfile → Action ℕ
  unfolding create_profiles
  server_create s profiles h =
      let i = pf.servers.next_id h.servers in
      pure i (record h {
        servers = pf.servers.create s h.servers;
        profiles = create_profiles i profiles h.profiles;
      })

  -- A new row, its status and times as the schema gives them.
  abbrev pub new_server : ℕ → String → OsType → String → String → ℕ → Server
  new_server owner_id name os_type tailscale_ip api_key_hash now = record {
    owner_id = owner_id;
    name = name;
    os_type = os_type;
    tailscale_ip = tailscale_ip;
    api_key_hash = api_key_hash;
    status = offline;
    last_heartbeat_at = none;
    created_at = now;
  }

  unfoldable pub create : ℕ → CreateServer → Action (PublicServer × String)
  unfolding generate_api_key server_create
  create owner_id dto = do
    api_key ← generate_api_key
    now ← gets (λ h. h.clock)
    let s = new_server owner_id dto.name dto.os_type dto.tailscale_ip (hash_api_key api_key) now
    i ← server_create s default_worker_profiles
    pure (to_public i s, api_key)

  unfoldable pub find_all_for_owner : ℕ → Action (List PublicServer)
  find_all_for_owner owner_id = gets λ h.
      map (λ (e : ℕ × Server). to_public e.0 e.1)
        (pf.servers.find_many (λ _ _. true) (λ _ s. s.owner_id == owner_id) h.servers)

  unfoldable pub get_owned_server : ℕ → ℕ → Action Server
  get_owned_server owner_id server_id = do
    found ← gets (λ h. pf.servers.find_unique server_id h.servers)
    server ← or_raise found ErrorKind.not_found "서버를 찾을 수 없습니다."
    raise_if (not (server.owner_id == owner_id)) ErrorKind.forbidden "해당 서버에 접근할 권한이 없습니다."
    pure server

  unfoldable pub find_one_for_owner : ℕ → ℕ → Action PublicServer
  unfolding get_owned_server
  find_one_for_owner owner_id server_id = do
    server ← get_owned_server owner_id server_id
    pure (to_public server_id server)

  unfoldable pub get_health : ℕ → ℕ → Action (ServerStatus × Option ℕ)
  unfolding get_owned_server
  get_health owner_id server_id = do
    server ← get_owned_server owner_id server_id
    pure (server.status, server.last_heartbeat_at)

  -- The server that a row goes with.
  abbrev pub task_is_of : ℕ → Option Task → Bool
  task_is_of server_id none = false
  task_is_of server_id (some t) = t.server_id == server_id

  abbrev pub unlink : ℕ → ServerRegistrationRequest → ServerRegistrationRequest
  unlink server_id r = if has_id server_id r.server_id then record r { server_id = none } else r

  -- `server.delete`, with the `onDelete: Cascade` and `onDelete: SetNull` of the schema
  unfoldable pub server_delete : ℕ → Hub → Hub
  server_delete i h = record h {
    servers = pf.servers.delete_many (λ j _. j == i) h.servers;
    tasks = pf.tasks.delete_many (λ _ t. t.server_id == i) h.tasks;
    profiles = pf.profiles.delete_many (λ _ p. p.server_id == i) h.profiles;
    attempts =
        pf.attempts.delete_many
          (λ _ a. a.server_id == i || task_is_of i (pf.tasks.find_unique a.task_id h.tasks))
          h.attempts;
    approvals =
        pf.approvals.delete_many (λ _ a. task_is_of i (pf.tasks.find_unique a.task_id h.tasks))
          h.approvals;
    registrations = pf.registrations.update_many (λ _ _. true) (unlink i) h.registrations;
  }

  unfoldable pub remove : ℕ → ℕ → Action (Unit {0})
  unfolding get_owned_server server_delete
  remove owner_id server_id = do
    get_owned_server owner_id server_id
    modify (server_delete server_id)

  unfoldable pub mark_heartbeat : ℕ → Action (Unit {0})
  unfolding server_update
  mark_heartbeat server_id = do
    now ← gets (λ h. h.clock)
    server_update server_id λ s. record s { status = online; last_heartbeat_at = some now }
    pure tt

  unfoldable pub mark_offline : ℕ → Action (Unit {0})
  unfolding server_update
  mark_offline server_id = do server_update server_id λ s. record s { status = offline }; pure tt

  -- `findFirst({ where: { apiKeyHash } })`
  unfoldable pub find_by_api_key : String → Hub → Option (ℕ × Server)
  find_by_api_key api_key h =
      pf.servers.find_first (λ _. 0) (λ _ s. str_eq s.api_key_hash (hash_api_key api_key)) h.servers
