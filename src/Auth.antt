-- ===== src/Auth.antt =====
-- src/modules/auth/auth.service.ts. The random session id and the time are arguments; the wait that
-- levels the time of an answer is not modelled.
pub mod Guards
pub mod Sessions
use Prim.Native.Char.{code}
use Prim.Native.String
use mediavault_backend.Prelude.{
  ℕ, ◌+◌, ◌-◌, ◌*◌, ◌/◌, String, Bool, true, false, ◌&&◌, ◌||◌, not, Option, none, some, ◌==◌,
  if◌then◌else◌, get_or, leb, ltb, eqb, Action, ◌>>=◌, ◌>>◌, pure, state, modify, throw_if,
  or_throw, unauthorized, forbidden, ok, err,
}
use mediavault_backend.Platform.Repository.{by_key}
use mediavault_backend.Redis as Redis
use mediavault_backend.Audit.{log_action}
use mediavault_backend.Backend.{User, Session, session_id, Env, Backend}

pub record LoginDto : Type 0 where
  pub username : String
  pub password : String

pub record LoginUser : Type 0 where
  pub id : String
  pub email : String
  pub first_name : String
  pub last_name : String
  pub role : String

pub record LoginResult : Type 0 where
  pub access_token : String
  pub refresh_token : String
  pub user : LoginUser
  pub expires_in : ℕ

pub record RefreshResult : Type 0 where
  pub access_token : String
  pub expires_in : ℕ

-- `identifier.includes('@')`.
abbrev pub has_at : String → Bool
has_at String.[] = false
has_at (String.◌∷◌ c s) = eqb (code c) b'@' || has_at s

abbrev all_digits : String → Bool
all_digits String.[] = true
all_digits (String.◌∷◌ c s) = leb b'0' (code c) && leb (code c) b'9' && all_digits s

-- `/^\d+$/.test(identifier)`.
abbrev pub is_numeric : String → Bool
is_numeric s = not (s == "") && all_digits s

-- An optional column equals a text.
abbrev pub is_text : Option String → String → Bool
is_text none t = false
is_text (some s) t = s == t

abbrev pub blacklist_key : String → String
blacklist_key hash = String.◌++◌ "blacklist:" hash

abbrev pub dummy_hash : String
dummy_hash = "$2b$12$AAAAAAAAAAAAAAAAAAAAAAAAAAAAAAAAAAAAAAAAAAAAAAAAAAAAAAA"

-- 8 hours, in milliseconds.
abbrev pub session_ms : ℕ
session_ms = 8 * 60 * 60 * 1000

module _ (env : Env) where
  open env use {tokens}

  -- The lookup of `login`: by mail, by number, or not at all.
  unfoldable pub find_login_user : String → Backend env → Option User
  find_login_user identifier b =
      if has_at identifier
      then env.users.find_one (λ u. u.email == tokens.to_lower_case identifier) b.users
      else if is_numeric identifier
      then env.users.find_one (λ u. is_text u.id_number identifier) b.users
      else none

  -- `user?.passwordHash ?? dummyHash`.
  abbrev pub hash_of : Option User → String
  hash_of none = dummy_hash
  hash_of (some u) = u.password_hash

  unfoldable pub sign_access : ℕ → User → String → String
  sign_access now u sid =
      tokens.sign now (record { sub = u.id; email = u.email; role = u.role.name; session_id = sid })

  unfoldable pub sign_refresh : ℕ → User → String → String
  sign_refresh now u sid =
      tokens.sign_refresh now (get_or env.jwt.refresh_secret "jwt_refresh_secret")
        (get_or env.jwt.refresh_expires_in "8h") (record { sub = u.id; session_id = sid })

  -- The row that `login` saves.
  unfoldable pub new_session : ℕ → User → String → String → String → Session
  unfolding sign_access sign_refresh
  new_session now u sid ip agent = record {
    id = sid;
    user = u;
    token_hash = tokens.sha256 (sign_access now u sid);
    refresh_token_hash = tokens.sha256 (sign_refresh now u sid);
    ip_address = some ip;
    user_agent = some agent;
    expires_at = now + session_ms;
    created_at = now;
  }

  abbrev pub login_result : ℕ → User → String → LoginResult
  login_result now u sid = record {
    access_token = sign_access now u sid;
    refresh_token = sign_refresh now u sid;
    user = record {
      id = u.id;
      email = u.email;
      first_name = u.first_name;
      last_name = u.last_name;
      role = u.role.name;
    };
    expires_in = 900;
  }

  unfoldable pub login : ℕ → String → LoginDto → String → String → Action (Backend env) LoginResult
  unfolding new_session
  login now sid dto ip agent = do
    b ← state
    let found = find_login_user dto.username b
    let valid = tokens.bcrypt_compare dto.password (hash_of found)
    u ← or_throw found unauthorized
    throw_if (not valid) unauthorized
    throw_if (not u.is_active) forbidden
    modify (λ b. record b {
      sessions = env.sessions.save (new_session now u sid ip agent) b.sessions;
      audit = log_action "LOGIN" "User" (some u.id) (some u.id) (some ip) none b.audit;
    })
    pure (login_result now u sid)

  -- `where: { id: sessionId, user: { id: userId } }`.
  abbrev pub session_of : String → String → Session → Bool
  session_of uid sid s = s.id == sid && s.user.id == uid

  unfoldable pub refresh : ℕ → String → String → Action (Backend env) RefreshResult
  refresh now uid sid = do
    b ← state
    s ← or_throw (env.sessions.find_one (session_of uid sid) b.sessions) unauthorized
    throw_if (ltb s.expires_at now) unauthorized
    pure (record { access_token = sign_access now s.user sid; expires_in = 900 })

  -- The part of `logout` in its `try`; a `decode` that throws is swallowed.
  unfoldable pub blacklist_token : ℕ → String → Backend env → Backend env
  blacklist_token now raw b = elim (tokens.decode_exp raw) [
    | none ↦ b
    | some none ↦ b
    | some (some exp) ↦
        let ttl = exp - now / 1000 in
        if ltb 0 ttl
        then record b {
          redis = Redis.set env.redis now (blacklist_key (tokens.sha256 raw)) "1" ttl b.redis;
        }
        else b
  ]

  unfoldable pub logout : ℕ → String → String → String → Backend env → Backend env
  unfolding blacklist_token
  logout now uid sid raw b =
      let b' = blacklist_token now raw b in
      record b' {
        sessions = env.sessions.delete (by_key session_id sid) b'.sessions;
        audit = log_action "LOGOUT" "User" (some uid) (some uid) none none b'.audit;
      }

  -- `{ user: { id: userId } }`.
  abbrev pub of_user : String → Session → Bool
  of_user uid s = s.user.id == uid

  unfoldable pub logout_all : String → Backend env → Backend env
  logout_all uid b = record b {
    sessions = env.sessions.delete (of_user uid) b.sessions;
    audit = log_action "LOGOUT_ALL" "User" (some uid) (some uid) none none b.audit;
  }

  -- A session that is not there is revoked already.
  unfoldable pub revoke_session : String → String → String → Action (Backend env) (Unit {0})
  revoke_session sid uid role b = elim (env.sessions.find_one (by_key session_id sid) b.sessions) [
    | none ↦ (b, ok tt)
    | some s ↦
        if not (s.user.id == uid) && not (role == "admin")
        then (b, err forbidden)
        else (record b { sessions = env.sessions.delete (by_key session_id sid) b.sessions }, ok tt)
  ]
