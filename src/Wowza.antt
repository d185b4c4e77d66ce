-- ===== src/Wowza.antt =====
-- src/modules/wowza/wowza.service.ts: which server is asked, the addresses of its streams, and what
-- is kept of its answers. The requests themselves are HTTP: what one answers is an argument.
pub mod Active
pub mod Caching
pub mod Tokens
pub mod Http
use Prim.Native.String
use mediavault_backend.Prelude.{
  ℕ, ◌+◌, String, Bool, true, false, ◌&&◌, Option, none, some, List, [], ◌∷◌, map, ◌==◌,
  if◌then◌else◌, get_or, leb, ltb, length, Map, get, set, decimal, Result, ok, err, HttpError,
  not_found, Action,
}
use mediavault_backend.Platform.Repository.{Repository, by_key}
use mediavault_backend.Platform.RedisClient.{RedisClient}
use mediavault_backend.Redis.{RedisService, del, get_or_set}
use mediavault_backend.WowzaServers.{WowzaServer, server_key}

-- `WowzaServerConfig`.
pub record ServerConfig : Type 0 where
  pub id : String
  pub ip : String
  pub port_api : ℕ
  pub port_stream : ℕ
  pub port_hls : ℕ
  pub api_user : String
  pub api_password : String
  pub app_name : String

abbrev pub server_config : WowzaServer → ServerConfig
server_config s = record {
  id = s.id;
  ip = s.ip;
  port_api = s.port_api;
  port_stream = s.port_stream;
  port_hls = s.port_hls;
  api_user = s.api_user;
  api_password = s.api_password;
  app_name = s.app_name;
}

-- What `ConfigService.get` answers for `wowza.host` and the other keys.
pub record WowzaEnv : Type 0 where
  pub host : Option String
  pub port_api : Option ℕ
  pub port_stream : Option ℕ
  pub port_hls : Option ℕ
  pub api_user : Option String
  pub api_password : Option String
  pub app_name : Option String

abbrev pub env_config : WowzaEnv → ServerConfig
env_config w = record {
  id = "env";
  ip = get_or w.host "localhost";
  port_api = get_or w.port_api 8087;
  port_stream = get_or w.port_stream 1935;
  port_hls = get_or w.port_hls 8088;
  api_user = get_or w.api_user "admin";
  api_password = get_or w.api_password "";
  app_name = get_or w.app_name "live";
}

-- The first of `order: { createdAt: 'ASC' }`.
unfoldable pub oldest : List WowzaServer → Option WowzaServer
oldest [] = none
oldest (s ∷ ss) = elim (oldest ss) [
  | none ↦ some s
  | some x ↦ if leb s.created_at x.created_at then some s else some x
]

abbrev pub or_else {ℓ} : {A : Type ℓ} → Option A → Option A → Option A
or_else none b = b
or_else (some a) b = some a

module _ (repo : Repository WowzaServer server_key) where
  -- `if (serverId)` and the query under it.
  abbrev pub requested : Option String → repo.Table → Option WowzaServer
  requested none t = none
  requested (some id) t =
      if id == "" then none else repo.find_one (λ s. s.id == id && s.is_active) t

  abbrev pub choose : Option String → repo.Table → Option WowzaServer
  choose id t = or_else (requested id t) (
      or_else (repo.find_one (λ s. s.is_default && s.is_active) t)
        (oldest (repo.find (λ s. s.is_active) t)))

  -- `getActiveServer`, given whether the database answers; if it does not, the environment serves.
  unfoldable pub get_active_server : Bool → WowzaEnv → Option String → repo.Table → ServerConfig
  get_active_server false w id t = env_config w
  get_active_server true w id t = elim (choose id t) [
    | none ↦ env_config w
    | some s ↦ server_config s
  ]

infixr 5 ◌<>◌
abbrev pub ◌<>◌ : String → String → String
s <> t = String.◌++◌ s t

pub record PlaybackUrls : Type 0 where
  pub hls : String
  pub ll_hls : String
  pub dash : String
  pub webrtc : String
  pub rtmp : String

-- `buildPlaybackUrls` and `buildDvrClipUrl`, given the server that `getActiveServer` answers.
unfoldable pub build_playback_urls : ServerConfig → String → String → PlaybackUrls
build_playback_urls s app name =
    let path = s.ip <> ":" <> decimal s.port_stream <> "/" <> app <> "/" <> name in
    record {
      hls = "http://" <> path <> "/playlist.m3u8";
      ll_hls = "http://" <> path <> "/playlist.m3u8?chunklist";
      dash = "http://" <> path <> "/manifest.mpd";
      webrtc =
          "https://" <> s.ip <> ":" <> decimal (s.port_hls + 2) <> "/webrtc/" <> app <> "/" <> name;
      rtmp = "rtmp://" <> path;
    }

unfoldable pub build_dvr_clip_url : ServerConfig → String → String → ℕ → ℕ → String
build_dvr_clip_url s app name start ms =
    "http://"
    <> s.ip
    <> ":"
    <> decimal s.port_hls
    <> "/"
    <> app
    <> "/"
    <> name
    <> "/playlist.m3u8"
    <> "?DVR&wowzadvrplayliststart="
    <> decimal start
    <> "&wowzadvrplaylistduration="
    <> decimal ms

-- What the service reads of a `WowzaConnection`.
pub record Connection : Type 0 where
  pub application_name : String
  pub protocol : String

-- `byX[conn.x] = (byX[conn.x] ?? 0) + 1`, over the connections from the first on.
unfoldable pub tally : (Connection → String) → List Connection → Map ℕ → Map ℕ
tally f [] m = m
tally f (c ∷ cs) m = tally f cs (set (f c) (get_or (get (f c) m) 0 + 1) m)

pub record ConnectionSummary : Type 0 where
  pub total : ℕ
  pub by_application : Map ℕ
  pub by_protocol : Map ℕ
  pub connections : List Connection

unfoldable pub summarise : List Connection → ConnectionSummary
summarise cs = record {
  total = length cs;
  by_application = tally (λ c. c.application_name) cs [];
  by_protocol = tally (λ c. c.protocol) cs [];
  connections = cs;
}

pub record ServerStatus : Type 0 where
  pub is_online : Bool
  pub version : String
  pub uptime : ℕ

-- The value that `getServerStatus` computes from the optional fields of an answer; a request that
-- fails is a server that is off.
abbrev pub status_of : Result (Option String × Option ℕ) → ServerStatus
status_of (ok (version, uptime)) = record {
  is_online = true;
  version = get_or version "unknown";
  uptime = get_or uptime 0;
}
status_of (err e) = record { is_online = false; version = "unknown"; uptime = 0 }

-- `getIncomingStream`, given what the request answers: a 404 is no stream.
abbrev pub found_stream {ℓ} : {A : Type ℓ} → Result A → Result (Option A)
found_stream (ok a) = ok (some a)
found_stream (err not_found) = ok none
found_stream (err e) = err e

-- `checkDvrAvailable`, given the stores of an answer, if they are an array.
abbrev pub has_stores : Result (Option ℕ) → Bool
has_stores (ok (some n)) = ltb 0 n
has_stores _ = false

abbrev pub map_result {ℓ κ} : {A : Type ℓ} {B : Type κ} → (A → B) → Result A → Result B
map_result f (ok a) = ok (f a)
map_result f (err e) = err e

abbrev pub streams_key : ServerConfig → String → String
streams_key s app = "wowza:" <> s.id <> ":streams:" <> app

module _ (c : RedisClient) where
  -- `getIncomingStreams`, given how a list is written and read, and what the request answers.
  unfoldable pub get_incoming_streams {ℓ} :
      {A : Type ℓ}
      → ℕ
      → ServerConfig
      → String
      → (List A → String)
      → (String → Option (List A))
      → Result (Option (List A))
      → Action (RedisService c) (List A)
  get_incoming_streams now s app write parse answer =
      get_or_set c now (streams_key s app) 5 write parse (map_result (λ o. get_or o []) answer)

  unfoldable pub get_applications {ℓ} :
      {A : Type ℓ}
      → ℕ
      → ServerConfig
      → (List A → String)
      → (String → Option (List A))
      → Result (Option (List A))
      → Action (RedisService c) (List A)
  get_applications now s write parse answer =
      get_or_set c now ("wowza:" <> s.id <> ":applications") 30 write parse
        (map_result (λ o. get_or o []) answer)

  unfoldable pub get_connections :
      ℕ
      → ServerConfig
      → (ConnectionSummary → String)
      → (String → Option ConnectionSummary)
      → Result (Option (List Connection))
      → Action (RedisService c) ConnectionSummary
  get_connections now s write parse answer =
      get_or_set c now ("wowza:" <> s.id <> ":connections") 10 write parse
        (map_result (λ o. summarise (get_or o [])) answer)

  unfoldable pub get_server_status :
      ℕ
      → ServerConfig
      → (ServerStatus → String)
      → (String → Option ServerStatus)
      → Result (Option String × Option ℕ)
      → Action (RedisService c) ServerStatus
  get_server_status now s write parse answer =
      get_or_set c now ("wowza:" <> s.id <> ":status") 15 write parse (ok (status_of answer))

  -- `connectStream` and `disconnectStream`, which differ in the request: the cached streams of the
  -- application are dropped unless the request fails.
  unfoldable pub switch_stream :
      ServerConfig → String → Result (Unit {0}) → Action (RedisService c) (Unit {0})
  switch_stream s app (ok u) r = (del c (streams_key s app) r, ok u)
  switch_stream s app (err e) r = (r, err e)
