-- ===== src/WowzaServers.antt =====
-- src/wowza-servers. The state is the table. The time, the id of a new row and what a server answers
-- to a test are arguments. The password of an entity is the one in the clear: the column's
-- transformer encrypts it on the way to the database and decrypts it on the way back.
pub mod Default
use mediavault_backend.Prelude.{
  ℕ, String, Bool, true, false, not, ◌&&◌, Option, none, some, ◌==◌, if◌then◌else◌, get_or, is_some,
  Action, ◌>>=◌, ◌>>◌, pure, state, modify, throw_if, or_throw, not_found, conflict, bad_request,
}
use mediavault_backend.Platform.Repository.{Repository, by_key}

pub record WowzaServer : Type 0 where
  pub id : String
  pub name : String
  pub ip : String
  pub port_stream : ℕ
  pub port_hls : ℕ
  pub port_api : ℕ
  pub app_name : String
  pub api_user : String
  pub api_password : String
  pub go2rtc_url : Option String
  pub is_default : Bool
  pub is_active : Bool
  pub last_tested_at : Option ℕ
  pub last_test_ok : Option Bool
  pub created_at : ℕ
  pub updated_at : ℕ

abbrev pub server_key : WowzaServer → String
server_key s = s.id

pub record CreateWowzaServerDto : Type 0 where
  pub name : String
  pub ip : String
  pub port_stream : Option ℕ
  pub port_hls : Option ℕ
  pub port_api : Option ℕ
  pub app_name : String
  pub api_user : String
  pub api_password : String
  pub go2rtc_url : Option String
  pub is_default : Option Bool
  pub is_active : Option Bool

pub record UpdateWowzaServerDto : Type 0 where
  pub name : Option String
  pub ip : Option String
  pub port_stream : Option ℕ
  pub port_hls : Option ℕ
  pub port_api : Option ℕ
  pub app_name : Option String
  pub api_user : Option String
  pub api_password : Option String
  pub go2rtc_url : Option String
  pub is_default : Option Bool
  pub is_active : Option Bool

-- `WowzaServerResponseDto`: there is no password in it.
pub record WowzaServerResponse : Type 0 where
  pub id : String
  pub name : String
  pub ip : String
  pub port_stream : ℕ
  pub port_hls : ℕ
  pub port_api : ℕ
  pub app_name : String
  pub api_user : String
  pub go2rtc_url : Option String
  pub is_default : Bool
  pub is_active : Bool
  pub last_tested_at : Option ℕ
  pub last_test_ok : Option Bool
  pub created_at : ℕ
  pub updated_at : ℕ

abbrev pub from_entity : WowzaServer → WowzaServerResponse
from_entity e = record {
  id = e.id;
  name = e.name;
  ip = e.ip;
  port_stream = e.port_stream;
  port_hls = e.port_hls;
  port_api = e.port_api;
  app_name = e.app_name;
  api_user = e.api_user;
  go2rtc_url = e.go2rtc_url;
  is_default = e.is_default;
  is_active = e.is_active;
  last_tested_at = e.last_tested_at;
  last_test_ok = e.last_test_ok;
  created_at = e.created_at;
  updated_at = e.updated_at;
}

abbrev pub new_server : ℕ → String → CreateWowzaServerDto → WowzaServer
new_server now id dto = record {
  id = id;
  name = dto.name;
  ip = dto.ip;
  port_stream = get_or dto.port_stream 1935;
  port_hls = get_or dto.port_hls 8088;
  port_api = get_or dto.port_api 8087;
  app_name = dto.app_name;
  api_user = dto.api_user;
  api_password = dto.api_password;
  go2rtc_url = dto.go2rtc_url;
  is_default = get_or dto.is_default false;
  is_active = get_or dto.is_active true;
  last_tested_at = none;
  last_test_ok = none;
  created_at = now;
  updated_at = now;
}

-- `apiPassword !== undefined && apiPassword !== ''`.
abbrev pub or_password : Option String → String → String
or_password none old = old
or_password (some p) old = if p == "" then old else p

abbrev pub or_url : Option String → Option String → Option String
or_url none old = old
or_url (some u) old = some u

-- `Object.assign(server, rest)` and the password.
abbrev pub assign : UpdateWowzaServerDto → WowzaServer → WowzaServer
assign dto s = record s {
  name = get_or dto.name s.name;
  ip = get_or dto.ip s.ip;
  port_stream = get_or dto.port_stream s.port_stream;
  port_hls = get_or dto.port_hls s.port_hls;
  port_api = get_or dto.port_api s.port_api;
  app_name = get_or dto.app_name s.app_name;
  api_user = get_or dto.api_user s.api_user;
  api_password = or_password dto.api_password s.api_password;
  go2rtc_url = or_url dto.go2rtc_url s.go2rtc_url;
  is_default = get_or dto.is_default s.is_default;
  is_active = get_or dto.is_active s.is_active;
}

-- `dto.name && dto.name !== server.name`.
abbrev pub renames : Option String → WowzaServer → Bool
renames none s = false
renames (some n) s = not (n == "") && not (n == s.name)

-- What `fetch` answers: an exception, or a status outside of 2xx, or one in it with a body that cannot
-- be read or with the version in it.
pub data Probe : Type 0 where
  failed : String → Probe
  refused : String → Probe
  unreadable : String → Probe
  accepted : Option String → Probe

pub record TestConnectionResult : Type 0 where
  pub ok : Bool
  pub latency_ms : ℕ
  pub version : Option String
  pub error : Option String

abbrev pub result_of : ℕ → Probe → TestConnectionResult
result_of ms (failed e) = record { ok = false; latency_ms = ms; version = none; error = some e }
result_of ms (refused e) = record { ok = false; latency_ms = ms; version = none; error = some e }
result_of ms (unreadable e) = record { ok = true; latency_ms = ms; version = none; error = some e }
result_of ms (accepted v) = record { ok = true; latency_ms = ms; version = v; error = none }

module _ (repo : Repository WowzaServer server_key) where
  abbrev pub find_server : String → repo.Table → Option WowzaServer
  find_server id t = repo.find_one (by_key server_key id) t

  abbrev named : String → repo.Table → Option WowzaServer
  named n t = repo.find_one (λ s. s.name == n) t

  -- `repo.update({ isDefault: true }, { isDefault: false })`.
  unfoldable pub clear_default : repo.Table → repo.Table
  clear_default t = repo.update (λ s. s.is_default) (λ s. record s { is_default = false }) t

  abbrev clear_if : Option Bool → repo.Table → repo.Table
  clear_if (some true) t = clear_default t
  clear_if _ t = t

  unfoldable pub find_default : repo.Table → Option WowzaServerResponse
  find_default t = elim (repo.find_one (λ s. s.is_default && s.is_active) t) [
    | none ↦ none
    | some s ↦ some (from_entity s)
  ]

  unfoldable pub create : ℕ → String → CreateWowzaServerDto → Action repo.Table WowzaServerResponse
  create now id dto = do
    t ← state
    throw_if (is_some (named dto.name t)) conflict
    modify (clear_if dto.is_default)
    modify (repo.save (new_server now id dto))
    pure (from_entity (new_server now id dto))

  unfoldable pub update : String → UpdateWowzaServerDto → Action repo.Table WowzaServerResponse
  update id dto = do
    t ← state
    s ← or_throw (find_server id t) not_found
    throw_if (renames dto.name s && is_some (named (get_or dto.name "") t)) conflict
    modify (clear_if dto.is_default)
    modify (repo.save (assign dto s))
    pure (from_entity (assign dto s))

  -- The two updates are one transaction.
  unfoldable pub set_default : String → Action repo.Table WowzaServerResponse
  set_default id = do
    t ← state
    s ← or_throw (find_server id t) not_found
    modify clear_default
    modify (repo.update (by_key server_key id) (λ s. record s { is_default = true }))
    t' ← state
    s' ← or_throw (find_server id t') not_found
    pure (from_entity s')

  unfoldable pub remove : String → Action repo.Table (Unit {0})
  remove id = do
    t ← state
    s ← or_throw (find_server id t) not_found
    throw_if s.is_default bad_request
    modify (repo.delete (by_key server_key s.id))

  unfoldable pub test_connection : ℕ → ℕ → Probe → String → Action repo.Table TestConnectionResult
  test_connection now ms probe id = do
    t ← state
    s ← or_throw (find_server id t) not_found
    modify (
        repo.update (by_key server_key id) (λ s. record s {
          last_tested_at = some now;
          last_test_ok = some (result_of ms probe).ok;
        }))
    pure (result_of ms probe)
