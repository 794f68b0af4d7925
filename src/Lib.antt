-- ===== src/Lib.antt =====
-- Code Caller: a hub (hub-api, NestJS) through which a user's phone (mobile-app) hands tasks to
-- coding agents that run on the user's servers under a daemon (agent-daemon).
--
-- The hub keeps users, sessions, servers with their worker profiles, registration requests, tasks
-- with their attempts, approvals and push tokens in a database. A phone submits a task; a queue
-- dispatches it to the first connected server that fits; the daemon reports logs, requests for
-- approval and results; a watchdog times out what has gone silent; a capacity failure moves the
-- task to another server. A new server asks to be registered and gets its key after the owner's
-- approval.
--
-- What stands for what:
--   Prelude          notation, Boolean tests and lists that the others share
--   Database         a table of Prisma as an interface: its queries and writes with their laws;
--                    Database.Memory is an implementation by lists, which meets the laws
--   Schema, Events   hub-api/prisma/schema.prisma, hub-api/src/realtime/events.ts
--   Platform         what the hub runs on: the tables, Socket.io's rooms, the environment, ciphers,
--                    digests, JWT, bcrypt, Firebase; Platform.Memory is an instance
--   Hub              the state of the hub, and its actions: state passing with exceptions, which
--                    keep what was written before
--   Prisma           the calls of the database that throw
--   Text, Duration   JavaScript's texts as far as they are used; common/duration.util.ts
--   Crypto           common/crypto.util.ts
--   Realtime         realtime/realtime.service.ts
--   Gateway          realtime/daemon.gateway.ts; Gateway.Apps is realtime/app.gateway.ts
--   Workers          workers/worker-registry.service.ts, workers/adapters/codex.adapter.ts
--   Notifications    notifications/notifications.service.ts
--   Servers          servers/servers.service.ts
--   Attempts, Tasks, TaskResults
--                    tasks/tasks.service.ts: attempts, commands, and the daemon's reports
--   Dispatch, Watchdog, Processor
--                    tasks/tasks.processor.ts: the loop over candidates, the round of the watchdog,
--                    and the job that chooses between them
--   Approvals        approvals/approvals.service.ts
--   Registrations, RegistrationDecisions, RegistrationResults
--                    server-registrations/server-registrations.service.ts
--   Auth             auth/auth.service.ts
--   Api              the controllers, auth/guards, auth/strategies and main.ts; Api.Bodies is the
--                    classes under dto/ with their decorators, Api.Answers what is answered, Api.Clients
--                    the requests of mobile-app/App.tsx as the hub reads them
--   Mobile           mobile-app/App.tsx: requests to the hub, in Mobile.Items and Screen the state of
--                    the screen with its callbacks and events, in Mobile.Shown, Display, Wording and
--                    Results what is shown, in Mobile.Parts, Views and Pages the components as
--                    lists of what they show and offer
--   Units            JavaScript's strings as sequences of code units, for the daemon
--   Daemon           agent-daemon/src, in Daemon.Patterns (regular expressions), Daemon.Approvals and
--                    Daemon.Failures (approval-detector.js, failure-detector.js), Daemon.Command and
--                    Daemon.Runner (runner.js), Daemon.State and Daemon.Client (client.js, index.js),
--                    Daemon.Config (config.js), Daemon.Registration (register.js), and Daemon.Link,
--                    which passes the daemon's messages to the hub
-- Paths without a first folder are under hub-api/src. A module below one of these proves what it
-- is named for; Tests holds the theorems at concrete states.
--
-- A handler is a function from the state that it finds to its result and the state that it leaves;
-- handlers are not interleaved with one another. The clock stands still during a handler. Numbers
-- are natural numbers: times in milliseconds, ids that are only compared. The loops of the hub run
-- over lists. A log of the process is not modelled.
--
-- The screen of the app is a state with one step for each tap and each message of the socket; what
-- the hub answers to a callback is part of its step. The daemon is a state machine: each event of
-- its socket, its children, its timer or the operating system is one step, and a run is a list of
-- events in any order. Runners are numbered, since the callbacks of a child outlive the place of its
-- runner in the client's map. The loop of the registration, which waits for the owner, runs on as
-- much fuel as there are milliseconds until the request expires; a turn takes at least 2500 of them.
--
-- Not modelled: the router of NestJS and the modules, which are wiring; layout and styles of the
-- app; the daemon's logger; the seed, development scripts and deployment. Codex, the shell and the
-- operating system are inputs of the steps.
pub mod Prelude
pub mod Database
pub mod Text
pub mod Schema
pub mod Events
pub mod Platform
pub mod Hub
pub mod Prisma
pub mod Realtime
pub mod Workers
pub mod Crypto
pub mod Notifications
pub mod Servers
pub mod Attempts
pub mod Tasks
pub mod TaskResults
pub mod Dispatch
pub mod Watchdog
pub mod Processor
pub mod Approvals
pub mod Registrations
pub mod RegistrationDecisions
pub mod RegistrationResults
pub mod Duration
pub mod Auth
pub mod Gateway
pub mod Mobile
pub mod Units
pub mod Daemon
pub mod Api
pub mod Tests
