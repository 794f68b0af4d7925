-- ===== src/Hub.antt =====
-- The state of the hub and its actions. A handler is an action that runs from the state that it
-- finds to the one that it leaves; what it wrote before an exception stays written. The awaits of
-- one handler are not interleaved with another's.
use code_caller.Prelude.{
  ◌≡◌, refl, ◌⊎◌, inl, inr, ℕ, suc, String, Bool, Option, none, some, List, ◌∷◌, if◌then◌else◌,
}
use code_caller.Events.{DaemonOutbound, AppOutbound}
use code_caller.Platform.{Platform}

-- The exceptions of NestJS that the services throw, a plain `Error`, and an error of Prisma.
pub data ErrorKind : Type 0 where
  bad_request unauthorized forbidden not_found service_unavailable plain database : ErrorKind

pub record Error : Type 0 where
  pub kind : ErrorKind
  pub message : String

pub data Result (A : Type 0) : Type 0 where
  ok : A → Result A
  err : Error → Result A

pub Result-cases :
    {A : Type 0} (r : Result A) → ((a : A) × (r ≡ ok a)) ⊎ ((e : Error) × (r ≡ err e))
Result-cases (ok a) = inl (a, refl)
Result-cases (err e) = inr (e, refl)

-- What leaves the hub: events to the daemons of a server and to the apps of a user, and pushes.
pub data Sent : Type 0 where
  to_server : ℕ → DaemonOutbound → Sent
  to_user : ℕ → AppOutbound → Sent
  push : List String → String → String → Sent

-- The jobs that the hub adds to the queue `task-dispatch`, with their options.
pub data Added : Type 0 where
  dispatch_job : (task_id attempts backoff_ms : ℕ) → Added
  watchdog_job : (every_ms remove_on_fail : ℕ) → Added

module _ ⦃pf : Platform⦄ where
  pub record Hub : Type 0 where
    pub clock : ℕ
    -- how many draws of randomness were made
    pub draws : ℕ
    pub users : pf.users.Rows
    pub refresh_tokens : pf.refresh_tokens.Rows
    pub servers : pf.servers.Rows
    pub registrations : pf.registrations.Rows
    pub profiles : pf.profiles.Rows
    pub tasks : pf.tasks.Rows
    pub attempts : pf.attempts.Rows
    pub approvals : pf.approvals.Rows
    pub push_tokens : pf.push_tokens.Rows
    pub rooms : pf.rooms.State
    -- `socket.data.serverId` of a socket of a daemon
    pub socket_data : ℕ → Option ℕ
    -- whether `NotificationsService.app` is there
    pub push_app : Bool
    -- latest first
    pub added : List Added
    pub sent : List Sent

  abbrev pub Action : Type 0 → Type 0
  Action A = Hub → Result A × Hub

module _ ⦃pf : Platform⦄ {A : Type 0} where
  abbrev pub pure : A → Action A
  pure a h = (ok a, h)

  abbrev pub raise : ErrorKind → String → Action A
  raise k m h = (err (record { kind = k; message = m }), h)

  abbrev pub rethrow : Error → Action A
  rethrow e h = (err e, h)

  abbrev pub gets : (Hub → A) → Action A
  gets f h = (ok (f h), h)

  -- `if (x == null) throw …`
  abbrev pub or_raise : Option A → ErrorKind → String → Action A
  or_raise none k m h = (err (record { kind = k; message = m }), h)
  or_raise (some a) k m h = (ok a, h)

  -- `try { … } catch (error) { … }`
  abbrev pub try_catch : Action A → (Error → Action A) → Action A
  try_catch m handler h = let (r, h') = m h in elim r [ ok a ↦ (ok a, h') | err e ↦ handler e h' ]

infixl 5 ◌>>=◌ ◌>>◌
abbrev pub ◌>>=◌ : ⦃pf : Platform⦄ {A B : Type 0} → Action A → (A → Action B) → Action B
◌>>=◌ m f h = let (r, h') = m h in elim r [ ok a ↦ f a h' | err e ↦ (err e, h') ]

abbrev pub ◌>>◌ : ⦃pf : Platform⦄ {A B : Type 0} → Action A → Action B → Action B
m >> k = m >>= λ _. k

module _ ⦃pf : Platform⦄ where
  abbrev pub raise_if : Bool → ErrorKind → String → Action (Unit {0})
  raise_if b k m h = (if b then err (record { kind = k; message = m }) else ok tt, h)

  abbrev pub modify : (Hub → Hub) → Action (Unit {0})
  modify f h = (ok tt, f h)

  -- An event, a push or a job that leaves the hub.
  abbrev pub send : Sent → Action (Unit {0})
  send m h = (ok tt, record h { sent = m ∷ h.sent })

  abbrev pub add_job : Added → Action (Unit {0})
  add_job j h = (ok tt, record h { added = j ∷ h.added })

  abbrev pub draw : Action ℕ
  draw h = (ok h.draws, record h { draws = suc h.draws })
