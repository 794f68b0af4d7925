-- ===== src/Workers.antt =====
-- hub-api/src/workers/worker-registry.service.ts and hub-api/src/workers/adapters/codex.adapter.ts.
pub mod Candidates
use code_caller.Prelude.{
  ℕ, String, ◌<>◌, Bool, true, false, not, ◌&&◌, ◌||◌, Option, none, some, List, [], ◌∷◌, map, ◌==◌,
  if◌then◌else◌, sort, contains,
}
use code_caller.Schema.{
  WorkerType, WorkerProvider, Server, WorkerProfile, Task, TaskStatus, same_provider, is_online,
}
use code_caller.Events.{task_submit, task_cancel}
use code_caller.Platform.{Platform}
use code_caller.Hub.{Hub, Action, ErrorKind, pure, or_raise, gets, ◌>>=◌, ◌>>◌}
use code_caller.Realtime.{dispatch_to_server}

pub record WorkerDispatchCandidate : Type 0 where
  pub server_id : ℕ
  pub server_name : String
  pub provider : WorkerProvider
  pub profile_name : String

-- `providerForWorkerType`; no worker type is left for its `default`.
unfoldable pub provider_for_worker_type : WorkerType → WorkerProvider
provider_for_worker_type WorkerType.codex = WorkerProvider.codex
provider_for_worker_type WorkerType.claude = WorkerProvider.claude_code
provider_for_worker_type WorkerType.gemini = WorkerProvider.gemini

-- The one adapter that the constructor puts into `adapters`.
pub data Adapter : Type 0 where
  codex_adapter : Adapter

abbrev pub worker_type_name : WorkerType → String
worker_type_name WorkerType.codex = "CODEX"
worker_type_name WorkerType.claude = "CLAUDE"
worker_type_name WorkerType.gemini = "GEMINI"

-- `this.adapters.get(workerType)`
abbrev pub adapter_for : WorkerType → Option Adapter
adapter_for WorkerType.codex = some codex_adapter
adapter_for _ = none

module _ ⦃pf : Platform⦄ where
  -- `WorkerRegistry.get`
  unfoldable pub get : WorkerType → Action Adapter
  get w =
      or_raise (adapter_for w) ErrorKind.bad_request ("지원하지 않는 워커 타입입니다: " <> worker_type_name w)

  -- `orderBy: [{ serverId: 'asc' }, { profileName: 'asc' }]`
  abbrev pub by_server : ℕ × WorkerProfile → ℕ × WorkerProfile → Bool
  by_server (_, p) (_, q) =
      if p.server_id == q.server_id
      then pf.collate_le p.profile_name q.profile_name
      else pf.collate_le (pf.id_text p.server_id) (pf.id_text q.server_id)

  -- The comparator of `getDispatchCandidates`, of the stable `Array.prototype.sort`, as "does not come after".
  -- Of two profiles of the preferred server it answers -1 either way, and the language leaves their
  -- order to the implementation of `sort`; here they stay in the order of the query.
  abbrev pub not_after : ℕ → WorkerDispatchCandidate → WorkerDispatchCandidate → Bool
  not_after preferred l r =
      if l.server_id == preferred
      then true
      else if r.server_id == preferred
      then false
      else not (pf.locale_gt l.server_name r.server_name)

  -- the `where` of the query on the server of a profile
  abbrev pub server_fits : ℕ → List ℕ → ℕ → Option Server → Bool
  server_fits owner_id excluded server_id none = false
  server_fits owner_id excluded server_id (some s) =
      s.owner_id == owner_id && (is_online s.status && not (contains server_id excluded))

  abbrev pub profile_fits : WorkerProvider → ℕ → List ℕ → Hub → ℕ → WorkerProfile → Bool
  profile_fits provider owner_id excluded h i p =
      p.enabled
      && (same_provider p.provider provider
          && server_fits owner_id excluded p.server_id
              (pf.servers.find_unique p.server_id h.servers))

  -- the profile with `include: { server: { select: { id: true, name: true } } }`, mapped
  abbrev pub name_of : Option Server → String
  name_of none = ""
  name_of (some s) = s.name

  abbrev pub to_candidate : Hub → ℕ × WorkerProfile → WorkerDispatchCandidate
  to_candidate h (i, p) = record {
    server_id = p.server_id;
    server_name = name_of (pf.servers.find_unique p.server_id h.servers);
    provider = p.provider;
    profile_name = p.profile_name;
  }

  unfoldable pub candidates_in :
      WorkerProvider → ℕ → ℕ → List ℕ → Hub → List WorkerDispatchCandidate
  candidates_in provider owner_id preferred excluded h = sort (not_after preferred) (
      map (to_candidate h)
        (pf.profiles.find_many by_server (profile_fits provider owner_id excluded h) h.profiles))

  unfoldable pub get_dispatch_candidates :
      WorkerType → ℕ → List ℕ → Action (List WorkerDispatchCandidate)
  unfolding get provider_for_worker_type
  get_dispatch_candidates w preferred excluded = do
    get w
    found ← gets (λ h. pf.servers.find_unique preferred h.servers)
    server ←
        or_raise found ErrorKind.bad_request ("서버(" <> (pf.id_text preferred <> ")를 찾을 수 없습니다."))
    gets (candidates_in (provider_for_worker_type w) server.owner_id preferred excluded)

  -- `CodexAdapter.findTaskOrThrow`
  find_task_or_throw : ℕ → Action Task
  find_task_or_throw i = do
    found ← gets (λ h. pf.tasks.find_unique i h.tasks)
    or_raise found ErrorKind.not_found ("작업(" <> (pf.id_text i <> ")을 찾을 수 없습니다."))

  -- `submitTask`, `getStatus`, `getResult` and `cancelTask` of the adapter
  unfoldable pub submit_task : Adapter → ℕ → ℕ → String → Action ℕ
  unfolding dispatch_to_server
  submit_task codex_adapter task_id server_id input = do
    dispatch_to_server server_id (task_submit task_id input)
    pure task_id

  abbrev get_status : Adapter → ℕ → Action (ℕ × TaskStatus)
  unfolding find_task_or_throw
  get_status codex_adapter task_id = do
    task ← find_task_or_throw task_id
    pure (task_id, task.status)

  abbrev get_result : Adapter → ℕ → Action (ℕ × Option String)
  unfolding find_task_or_throw
  get_result codex_adapter task_id = do
    task ← find_task_or_throw task_id
    pure (task_id, task.result)

  unfoldable pub cancel_task : Adapter → ℕ → Action (Unit {0})
  unfolding find_task_or_throw dispatch_to_server
  cancel_task codex_adapter task_id = do
    task ← find_task_or_throw task_id
    dispatch_to_server task.server_id (task_cancel task_id)
