-- ===== src/Lib.antt =====
-- A model of the MediaVault backend (src/, a NestJS server in TypeScript) and the theorems about it.
--
-- The backend manages RTSP cameras whose video an FFmpeg process per stream pushes to a Wowza
-- server, the users, roles and sessions that may see them, and the alerts raised about them. A
-- service is a class whose methods read and write database tables, maps in memory, Redis, the audit
-- log and the sockets of the clients. Here the state of a service is a record, and a method that may
-- throw is an `Action`: a function from the state to the state that it leaves and its result or the
-- class of its exception. An exception keeps what was written before it.
--
-- The files and the code that they are about:
--   Prelude        names passed on, maps in insertion order, numbers as texts, blanks, `Action`
--   Platform       what the code gets from elsewhere, as records of operations and laws: TypeORM's
--                  repositories, the order and the text search of PostgreSQL, ioredis, bcrypt, SHA-256 and JSON web tokens, Node's files and
--                  encodings, the rooms of socket.io
--   Ingestion      src/modules/ingestion: `IngestionService`. Config and Args hold its types and the
--                  FFmpeg command line, Service the methods, Events the callbacks of processes and
--                  timers. WellFormed, Keeps and Runs are about any run of both, Retries about a
--                  process that keeps failing, Lifecycle about what a caller sees, Orphans about a
--                  timer that outlives a stop, Args/Masking about the credentials of a URL,
--                  Shown about the command that is shown
--   Redis          src/modules/redis: `RedisService`, which swallows the failures of its client;
--                  Scanning is about its loop over the keys
--   Audit          src/modules/audit: how `AuditService` builds an entry, and in Csv its export;
--                  Reading is about a reader of the export. Listing holds the queries
--   Gateway        src/modules/gateway: in Emissions what `StreamingGateway` sends to whom, in
--                  Polling its round over the streams, which calls Streams, in Clients the
--                  connections and subscriptions; Announcements is about what the clients hear of a
--                  round, Clients/Membership about the rooms they are in
--   Backend        the entities of users, roles and sessions, and the state the services share
--   Auth           src/modules/auth: `AuthService` with its strategies and guards, and the handshake
--                  of the gateway; Sessions and Guards
--   Security       src/modules/security: the revocations of `SecurityService`; Revocation is about
--                  one session, Everywhere about all sessions of a user. In Anomalies its rules and
--                  its report, over the rows of their queries; Addresses is about what they count.
--                  Sessions is the list of the sessions
--   Users          src/modules/users: `UsersService`, with its accounts in Accounts; Admins is about
--                  the last administrator, Lockout about the sessions of a user that is locked out.
--                  Listing and History hold what is read
--   Roles          src/modules/users/roles.service.ts; Permissions is about what it protects
--   Streams        src/modules/streams: `StreamsService`, in Rows and Service, over the model of the
--                  ingestion service; Lifecycle is about what a caller sees. Listing is the list,
--                  Playback the addresses
--   Alerts         src/modules/alerts: `AlertsService`, and in Worker `AlertsWorker`; Cooldown is
--                  about how often they raise an alert. Listing holds the queries
--   WowzaServers   src/wowza-servers: `WowzaServersService`; Default is about the default server
--   Wowza          src/modules/wowza: the choice of the server, the addresses and the cached answers
--                  of `WowzaService`, in Http its requests and what becomes of their failures, and
--                  in Tokens `WowzaSecureTokenService`; Active is about the server that is asked,
--                  Caching about what is answered again
--   Devices        src/modules/devices: `DevicesService`, with its rows in Records, and in Sync
--                  `DeviceSyncService`; Serials is about the serials. Listing is the list
--   Events         src/modules/events: `EventsService`, with its rows in Records; Links is about the
--                  streams of an event, Listing is the list
--   Evidences      src/modules/evidences: `EvidencesService` in Service, with its snapshots and
--                  clips in Captures, over the storage and the integrity services in Storage;
--                  Integrity is about the files, Downloads about the links to them. Listing is the
--                  list, Archive the packages of `EvidencesExportService`
--   Org            src/modules/org: `OrgService`, with its entities in Tables; Linked and Hierarchy
--                  are about the foreign keys, Runs about any calls
--   Paging         how the list methods cut their rows into pages; Pages is about all pages
--                  together, Queried about the rows of a query
--   Http           the controllers, whose routes are in Endpoints, under src/app.module.ts and
--                  src/main.ts: Request, Route and Router hold requests and routes, Dispatch the way
--                  of a request through the guards to a method, and Interception the audit
--                  interceptor and the exception filter of src/common. Access is about who is
--                  stopped, OwnAccount about the endpoints on the own account, Reachable about who
--                  is let in
--   Seeds          src/database/seeds: the roles and the first administrator
--   Examples       a database, a Redis server, a file system and rooms in lists and functions, which
--                  show that the laws of Platform can hold, and the theorems at states built with
--                  them
--
-- How they interact: Streams calls Ingestion and sends through Gateway; Users calls Security, which
-- writes to Redis the hashes that the guards of Auth look up; Alerts, Events and Evidences send
-- through Gateway; Wowza reads the table that WowzaServers keeps; Evidences keeps the tokens of its
-- downloads in Redis, as Wowza does with its answers and tokens. Http leads to a method by its name,
-- with the arguments that the controller gives it.
--
-- Times are milliseconds, and the time, the identifiers drawn, the process ids and the jitter of a
-- reconnection are arguments; a method runs at one time. Loops are over lists, but for two. The
-- digits of a number are on fuel, of which Prelude/Decimal gives one more than the number: any more
-- is the same. The loop over the keys in Redis is on fuel, and the number of calls that the server's
-- iteration has left is enough. A state object of the ingestion is a cell of a store, since the
-- callbacks keep it by reference after the maps have dropped it. A callback or a method runs as a
-- whole; where a method awaits, what other requests do meanwhile is not modelled.
--
-- Of the framework the routing is written out, as NestJS documents it: the routes of a controller in
-- the order of their methods, the first that fits, the guards of the application before those of the
-- class and of the method, and the pipes after them. Passport's verdict on a token is a part of the
-- request, and that of the global validation on its body and query is an argument.
--
-- Not modelled: rejections by the database, so each query succeeds; the texts of exceptions; the
-- change of `updatedAt` on a save; properties of a request that are null; log lines; the wait of
-- 200 ms in `stopIngestion`; strings cut inside a surrogate pair; the number of entries per action
-- that `getActionSummary` groups in SQL; how a ZIP file is packed; the cipher of the servers'
-- passwords; the letter case of paths, HEAD and OPTIONS requests, and the headers and files that
-- a method writes to its response; the probes of
-- src/modules/health; src/database/seeds/run-seeds.ts, whose clean-up is SQL; the migrations, the
-- configuration and the classes of src/common that nothing uses.
pub mod Prelude
pub mod Ingestion
pub mod Platform
pub mod Redis
pub mod Audit
pub mod Gateway
pub mod Backend
pub mod Auth
pub mod Security
pub mod Users
pub mod Roles
pub mod Streams
pub mod Alerts
pub mod WowzaServers
pub mod Events
pub mod Devices
pub mod Wowza
pub mod Evidences
pub mod Examples
pub mod Http
pub mod Paging
pub mod Org
pub mod Seeds
