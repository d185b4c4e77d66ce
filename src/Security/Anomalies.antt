-- ===== src/Security/Anomalies.antt =====
-- `detectAnomalies` and `getSecurityReport` of src/modules/security/security.service.ts. A query that
-- throws is `none`. The rows of its queries, grouped in SQL or the logins of the last day, are arguments.
use Prim.Native.String
use mediavault_backend.Prelude.{
  ℕ, ◌+◌, String, Bool, false, not, ◌&&◌, Option, none, some, List, [], ◌∷◌, ◌++◌, map, ◌==◌,
  if◌then◌else◌, any, ltb, length, get_or, Map, get, set, decimal,
}
use mediavault_backend.Backend.{Session, Env, Backend}

pub data AnomalyKind : Type 0 where
  multiple_failed_logins mass_evidence_download after_hours_access login_new_ip : AnomalyKind

pub data AnomalyLevel : Type 0 where
  info warning critical : AnomalyLevel

pub record AnomalyReport : Type 0 where
  pub kind : AnomalyKind
  pub level : AnomalyLevel
  pub user_id : Option String
  pub description : String
  pub occurrences : ℕ
  pub detected_at : ℕ

-- A row of a grouped query; the addresses are grouped in the first one alone.
pub record CountedRow : Type 0 where
  pub user_id : Option String
  pub ip_address : String
  pub occurrences : ℕ

abbrev pub failed_login : ℕ → CountedRow → AnomalyReport
failed_login now r = record {
  kind = multiple_failed_logins;
  level = warning;
  user_id = r.user_id;
  description = String.◌++◌ "Múltiples intentos de login fallidos desde IP " r.ip_address;
  occurrences = r.occurrences;
  detected_at = now;
}

abbrev pub mass_download : ℕ → CountedRow → AnomalyReport
mass_download now r = record {
  kind = mass_evidence_download;
  level = critical;
  user_id = r.user_id;
  description =
      String.◌++◌ "Descarga masiva de evidencias: " (String.◌++◌ (decimal r.occurrences) " en 1h");
  occurrences = r.occurrences;
  detected_at = now;
}

abbrev pub after_hours : ℕ → CountedRow → AnomalyReport
after_hours now r = record {
  kind = after_hours_access;
  level = info;
  user_id = r.user_id;
  description = "Acceso detectado fuera de horario laboral (00:00–05:00 UTC)";
  occurrences = r.occurrences;
  detected_at = now;
}

-- What the service reads of a login's entry.
pub record LoginEntry : Type 0 where
  pub user_id : Option String
  pub ip_address : Option String

-- A JavaScript `Set`, in insertion order.
abbrev pub holds_text : String → List String → Bool
holds_text x xs = any (λ y. y == x) xs

unfoldable pub add : String → List String → List String
add x xs = if holds_text x xs then xs else xs ++ x ∷ []

abbrev pub present : Option String → Bool
present none = false
present (some s) = not (s == "")

-- The loop's body: an entry without a user or an address is passed over.
unfoldable pub note : LoginEntry → Map (List String) → Map (List String)
note e m =
    let uid = get_or e.user_id "" in
    if present e.user_id && present e.ip_address
    then set uid (add (get_or e.ip_address "") (get_or (get uid m) [])) m
    else m

unfoldable pub user_ips : List LoginEntry → Map (List String) → Map (List String)
user_ips [] m = m
user_ips (e ∷ es) m = user_ips es (note e m)

abbrev pub new_ip : ℕ → String → ℕ → AnomalyReport
new_ip now uid n = record {
  kind = login_new_ip;
  level = info;
  user_id = some uid;
  description =
      String.◌++◌ "Login desde " (String.◌++◌ (decimal n) " IPs distintas en las últimas 24h");
  occurrences = n;
  detected_at = now;
}

unfoldable pub new_ips : ℕ → Map (List String) → List AnomalyReport
new_ips now [] = []
new_ips now ((uid, ips) ∷ m) =
    let rest = new_ips now m in
    if ltb 1 (length ips) then new_ip now uid (length ips) ∷ rest else rest

-- What the queries of `detectAnomalies` answer.
pub record AnomalyQueries : Type 0 where
  pub failed_logins : Option (List CountedRow)
  pub mass_downloads : Option (List CountedRow)
  pub night_accesses : Option (List CountedRow)
  pub recent_logins : Option (List LoginEntry)

unfoldable pub detect_anomalies : ℕ → AnomalyQueries → List AnomalyReport
unfolding user_ips new_ips
detect_anomalies now q =
    map (failed_login now) (get_or q.failed_logins [])
    ++ map (mass_download now) (get_or q.mass_downloads [])
    ++ map (after_hours now) (get_or q.night_accesses [])
    ++ new_ips now (user_ips (get_or q.recent_logins []) [])

pub record RoleCounts : Type 0 where
  pub admin : ℕ
  pub supervisor : ℕ
  pub operator : ℕ
  pub viewer : ℕ

abbrev pub no_roles : RoleCounts
no_roles = record { admin = 0; supervisor = 0; operator = 0; viewer = 0 }

-- `activeSessionsByRole[roleName]++`, for a role of these names.
unfoldable pub count_role : String → RoleCounts → RoleCounts
count_role name n =
    if name == "admin"
    then record n { admin = n.admin + 1 }
    else if name == "supervisor"
    then record n { supervisor = n.supervisor + 1 }
    else if name == "operator"
    then record n { operator = n.operator + 1 }
    else if name == "viewer"
    then record n { viewer = n.viewer + 1 }
    else n

unfoldable pub tally_sessions : List Session → RoleCounts → List String → RoleCounts × List String
unfolding count_role add
tally_sessions [] n ips = (n, ips)
tally_sessions (s ∷ ss) n ips =
    tally_sessions ss (count_role s.user.role.name n)
      (if present s.ip_address then add (get_or s.ip_address "") ips else ips)

pub record SecurityReport : Type 0 where
  pub active_sessions : ℕ
  pub active_sessions_by_role : RoleCounts
  pub failed_logins_last_24h : ℕ
  pub unique_active_ips : ℕ
  pub anomalies : List AnomalyReport
  pub wowza_tokens_active : ℕ
  pub generated_at : ℕ

-- `getSecurityReport`, without the last audit entry, which it hands on; the two counts are what
-- their queries answer.
unfoldable pub get_security_report :
    (env : Env) → ℕ → ℕ → ℕ → AnomalyQueries → Backend env → SecurityReport
unfolding tally_sessions detect_anomalies
get_security_report env now failed tokens q b =
    let sessions = env.sessions.find (λ s. ltb now s.expires_at) b.sessions in
    let (roles, ips) = tally_sessions sessions no_roles [] in
    record {
      active_sessions = length sessions;
      active_sessions_by_role = roles;
      failed_logins_last_24h = failed;
      unique_active_ips = length ips;
      anomalies = detect_anomalies now q;
      wowza_tokens_active = tokens;
      generated_at = now;
    }
