-- ===== src/Examples/Revocations.antt =====
-- The theorems on sessions and tokens at one user that logs in.
use mediavault_backend.Prelude.{
  ◌+◌, ◌*◌, ◌<◌, false, some, [], ◌≡◌, ◌==◌, refl, arith, ok, err, get, set, unauthorized,
}
use mediavault_backend.Redis.Laws.{Serves}
use mediavault_backend.Platform.Repository.{by_key}
use mediavault_backend.Platform.Tokens.{JwtPayload}
use mediavault_backend.Backend.{User, Session, session_id, Backend}
use mediavault_backend.Auth.{
  refresh, LoginDto, login, login_result, new_session, blacklist_key, sign_access, find_login_user,
  sign_refresh,
}
use mediavault_backend.Auth.Sessions.{Granted, login-Granted}
use mediavault_backend.Auth.Guards.{validate}
use mediavault_backend.Security as Security
use mediavault_backend.Security.Revocation.{validate-revoke_session, validate-refreshed}
use mediavault_backend.Examples.Tables.{first, visible, without}
use mediavault_backend.Examples.Server.{env, ana, backend}

computing : Unit {0}
unfolding login first visible without find_login_user new_session sign_access sign_refresh
computing = tt

abbrev dto : LoginDto
dto = record { username = "ana@x"; password = "pw" }

abbrev pub online : Backend env
online = (login env 10 "k1" dto "ip" "agent" backend).0

login_ok : (login env 10 "k1" dto "ip" "agent" backend).1 ≡ ok (login_result env 10 ana "k1")
unfolding computing
login_ok = refl

login-Granted_example :
    (u : User) × Granted env 10 "k1" dto "ip" "agent" backend online u
      (login_result env 10 ana "k1")
login-Granted_example = login-Granted env 10 "k1" dto "ip" "agent" backend _ login_ok

abbrev pub saved : Session
saved = new_session env 10 ana "k1" "ip" "agent"

pub online_session : env.sessions.find_one (by_key session_id "k1") online.sessions ≡ some saved
unfolding computing
online_session = refl

abbrev payload : JwtPayload
payload = record { sub = "u1"; email = "ana@x"; role = "operator"; session_id = "k1" }

saved_hash : env.tokens.sha256 "early:k1" ≡ saved.token_hash
unfolding computing
saved_hash = refl

Serves-revoke :
    Serves env.redis 20 30
      (blacklist_key saved.token_hash)
      "1"
      (Security.ttl_seconds 20 saved.expires_at)
      online.redis
unfolding computing
Serves-revoke = record {
  server = [];
  server' =
      set (blacklist_key saved.token_hash)
        ("1", 20 + 1000 * Security.ttl_seconds 20 saved.expires_at) [];
  answer = 1;
  connects = refl;
  takes = refl;
  answers = unfold get set in refl;
}

saved_lasts : 30 < saved.expires_at
unfolding computing
saved_lasts = omega arith

validate-revoke_session_example :
    validate env 30
      (some "early:k1")
      payload
      (Security.revoke_session env 20 "x" "k1" "u0" online).0.redis
    ≡ err unauthorized
validate-revoke_session_example =
    validate-revoke_session env 20 "x" "k1" "u0" online saved online_session 30 payload "early:k1"
      refl saved_hash (omega arith) saved_lasts Serves-revoke

keys_differ :
    (blacklist_key saved.token_hash
      == blacklist_key (env.tokens.sha256 (sign_access env 100 saved.user "k1")))
    ≡ false
unfolding computing
keys_differ = refl

validate-refreshed_example :
    validate env 300
      (some (sign_access env 100 saved.user "k1"))
      payload
      (Security.revoke_session env 200 "x" "k1" "u0" online).0.redis
    ≡ validate env 300 (some (sign_access env 100 saved.user "k1")) payload online.redis
validate-refreshed_example =
    validate-refreshed env 100 200 300 "x" "u1" "k1" "u0" payload online online saved
      (record { access_token = sign_access env 100 saved.user "k1"; expires_in = 900 })
      online_session (unfold computing refresh in refl) keys_differ
