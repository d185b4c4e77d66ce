-- ===== src/Security/Addresses.antt =====
-- The rule on addresses of src/modules/security/security.service.ts, against the distinct addresses of
-- each user.
use mediavault_backend.Prelude.{
  ℕ, ◌+◌, String, Bool, true, false, not, ◌&&◌, none, some, List, [], ◌∷◌, ◌++◌, ◌==◌, ◌≡◌, refl,
  arith, if◌then◌else◌, filter, ltb, length, get_or, Map, get, set, get-set, Bool-cases, inl, inr,
  eq_iff, ap, sym, ◌∙◌,
}
use mediavault_backend.Backend.{Session, Env, Backend}
use mediavault_backend.Security.Anomalies.{
  RoleCounts, count_role, tally_sessions, no_roles, get_security_report, AnomalyQueries, LoginEntry,
  AnomalyReport, holds_text, add, present, note, user_ips, new_ip, new_ips,
}

-- The texts without those of the list.
abbrev pub without_all : List String → List String → List String
without_all xs = filter (λ y. not (holds_text y xs))

-- Each text once, where it stands first.
unfoldable pub distinct : List String → List String
distinct [] = []
distinct (x ∷ xs) = x ∷ without_all (x ∷ []) (distinct xs)

-- The addresses of the entries of a user.
abbrev pub addresses : String → List LoginEntry → List String
addresses uid [] = []
addresses uid (e ∷ es) =
    let rest = addresses uid es in
    if present e.user_id && present e.ip_address && (get_or e.user_id "" == uid)
    then get_or e.ip_address "" ∷ rest
    else rest

unfoldable pub add_all : List String → List String → List String
add_all [] ys = ys
add_all (x ∷ xs) ys = add_all xs (add x ys)

holds_text-append :
    (x : String) (xs : List String) (y : String)
    → holds_text x (xs ++ y ∷ []) ≡ (if holds_text x xs then true else y == x)
holds_text-append x [] y = ground arith
holds_text-append x (z ∷ xs) y = ground (arith, holds_text-append x xs y)

without-held :
    (x : String) (ys : List String) (zs : List String)
    → holds_text x ys ≡ true
    → without_all ys (without_all (x ∷ []) zs) ≡ without_all ys zs
without-held x ys [] h = refl
without-held x ys (z ∷ zs) h = ground (
  arith,
  without-held x ys zs h,
  eq_iff x z,
  ap (λ (j : String). holds_text j ys) {x = x} {y = z},
)

without-last :
    (x : String) (ys : List String) (zs : List String)
    → without_all (ys ++ x ∷ []) zs ≡ without_all ys (without_all (x ∷ []) zs)
without-last x ys [] = refl
without-last x ys (z ∷ zs) = ground (arith, without-last x ys zs, holds_text-append z ys x)

append_assoc :
    (xs : List String) (y : String) (zs : List String) → (xs ++ y ∷ []) ++ zs ≡ xs ++ y ∷ zs
append_assoc [] y zs = refl
append_assoc (x ∷ xs) y zs = ap (λ l. x ∷ l) (append_assoc xs y zs)

append_nil : (xs : List String) → xs ++ [] ≡ xs
append_nil [] = refl
append_nil (x ∷ xs) = ap (λ l. x ∷ l) (append_nil xs)

add_all-distinct : (xs ys : List String) → add_all xs ys ≡ ys ++ without_all ys (distinct xs)
unfolding add_all distinct add
add_all-distinct [] ys = sym (append_nil ys)
add_all-distinct (x ∷ xs) ys = elim (Bool-cases (holds_text x ys)) [
  | inl old ↦ ground (arith, add_all-distinct xs ys, without-held x ys (distinct xs) old)
  | inr new ↦ ground (
    arith,
    add_all-distinct xs (ys ++ x ∷ []),
    without-last x ys (distinct xs),
    append_assoc ys x (without_all ys (without_all (x ∷ []) (distinct xs))),
  )
]

without_none : (xs : List String) → without_all [] xs ≡ xs
without_none [] = refl
without_none (x ∷ xs) = ground (arith, without_none xs)

user_ips-get :
    (es : List LoginEntry) (m : Map (List String)) (uid : String)
    → get_or (get uid (user_ips es m)) [] ≡ add_all (addresses uid es) (get_or (get uid m) [])
unfolding user_ips note add_all
user_ips-get [] m uid = refl
user_ips-get (e ∷ es) m uid =
    let u = get_or e.user_id "" in
    let ips = add (get_or e.ip_address "") (get_or (get u m) []) in
    ground (
      arith,
      user_ips-get es (note e m) uid,
      get-set u uid ips m,
      eq_iff u uid,
      ap (λ (j : String). get j m) {x = u} {y = uid},
    )

-- Each key stands once.
abbrev IsUnique : Map (List String) → Type 0
IsUnique [] = Unit {0}
IsUnique ((k, v) ∷ m) = (get k m ≡ none) × IsUnique m

set-IsUnique :
    (k : String) (v : List String) (m : Map (List String)) → IsUnique m → IsUnique (set k v m)
unfolding set get
set-IsUnique k v [] h = (refl, tt)
set-IsUnique k v ((j, w) ∷ m) (h, hs) =
    ground (arith, set-IsUnique k v m hs, get-set k j v m, eq_iff k j, eq_iff j k)

user_ips-IsUnique :
    (es : List LoginEntry) (m : Map (List String)) → IsUnique m → IsUnique (user_ips es m)
unfolding user_ips note
user_ips-IsUnique [] m h = h
user_ips-IsUnique (e ∷ es) m h = elim (Bool-cases (present e.user_id && present e.ip_address)) [
  | inl on ↦ rw on (user_ips-IsUnique es _ (set-IsUnique _ _ m h))
  | inr off ↦ rw off (user_ips-IsUnique es m h)
]

abbrev pub is_about : String → AnomalyReport → Bool
is_about uid r = elim r.user_id [ none ↦ false | some u ↦ u == uid ]

abbrev pub reports_on : String → List AnomalyReport → List AnomalyReport
reports_on uid rs = filter (is_about uid) rs

-- What is reported of a user with these addresses.
abbrev pub report_of : ℕ → String → List String → List AnomalyReport
report_of now uid ips = if ltb 1 (length ips) then new_ip now uid (length ips) ∷ [] else []

reports_on-new_ips :
    (now : ℕ) (uid : String) (m : Map (List String))
    → IsUnique m
    → reports_on uid (new_ips now m) ≡ report_of now uid (get_or (get uid m) [])
unfolding new_ips get
reports_on-new_ips now uid [] h = refl
reports_on-new_ips now uid ((k, ips) ∷ m) (h, hs) = ground (
  arith,
  reports_on-new_ips now uid m hs,
  eq_iff k uid,
  ap (λ (j : String). get j m) {x = k} {y = uid},
)

-- The rule on addresses reports each user whose logins of the last day come from more than one
-- address, once and with the number of the distinct ones, and no other user.
pub new_ips-distinct :
    (now : ℕ) (es : List LoginEntry) (uid : String)
    → reports_on uid (new_ips now (user_ips es []))
      ≡ report_of now uid (distinct (addresses uid es))
new_ips-distinct now es uid =
    reports_on-new_ips now uid (user_ips es []) (user_ips-IsUnique es [] tt)
    ∙ ap (report_of now uid) (
        user_ips-get es [] uid
        ∙ (unfold get in add_all-distinct (addresses uid es) [] ∙ without_none _))

abbrev pub addresses_of : List Session → List String
addresses_of [] = []
addresses_of (s ∷ ss) =
    let rest = addresses_of ss in
    if present s.ip_address then get_or s.ip_address "" ∷ rest else rest

abbrev pub with_role : String → List Session → ℕ
with_role name ss = length (filter (λ s. s.user.role.name == name) ss)

tally-addresses :
    (ss : List Session) (n : RoleCounts) (ips : List String)
    → (tally_sessions ss n ips).1 ≡ add_all (addresses_of ss) ips
unfolding tally_sessions add_all
tally-addresses [] n ips = refl
tally-addresses (s ∷ ss) n ips = ground (
  arith,
  tally-addresses ss (count_role s.user.role.name n)
      (if present s.ip_address then add (get_or s.ip_address "") ips else ips),
)

abbrev one_if : Bool → ℕ
one_if b = if b then 1 else 0

-- A role of one of the four names adds to its own count alone.
count_role_lem :
    (name : String) (n : RoleCounts)
    → let m = count_role name n in
      (m.admin ≡ n.admin + one_if (name == "admin"))
      × (m.supervisor ≡ n.supervisor + one_if (name == "supervisor"))
      × (m.operator ≡ n.operator + one_if (name == "operator"))
      × (m.viewer ≡ n.viewer + one_if (name == "viewer"))
unfolding count_role
count_role_lem name n =
    let other = λ (j k : String). ap (λ (i : String). i == k) {x = name} {y = j} in
    let s = other "admin" "supervisor" in
    let o = other "admin" "operator" in
    let v = other "admin" "viewer" in
    let so = other "supervisor" "operator" in
    let sv = other "supervisor" "viewer" in
    let ov = other "operator" "viewer" in
    let a = eq_iff name "admin" in
    let b = eq_iff name "supervisor" in
    let c = eq_iff name "operator" in
    (
      ground arith,
      ground (arith, a, s),
      ground (arith, a, b, o, so),
      ground (arith, a, b, c, v, sv, ov),
    )

tally-roles :
    (ss : List Session) (n : RoleCounts) (ips : List String)
    → let m = (tally_sessions ss n ips).0 in
      (m.admin ≡ n.admin + with_role "admin" ss)
      × (m.supervisor ≡ n.supervisor + with_role "supervisor" ss)
      × (m.operator ≡ n.operator + with_role "operator" ss)
      × (m.viewer ≡ n.viewer + with_role "viewer" ss)
unfolding tally_sessions
tally-roles [] n ips = (ground arith, ground arith, ground arith, ground arith)
tally-roles (s ∷ ss) n ips =
    let step = count_role_lem s.user.role.name n in
    let rest =
      tally-roles ss (count_role s.user.role.name n)
        (if present s.ip_address then add (get_or s.ip_address "") ips else ips) in
    (
      ground (arith, step, rest),
      ground (arith, step, rest),
      ground (arith, step, rest),
      ground (arith, step, rest),
    )

-- The report counts the sessions that have not expired, those of them whose users have each of the
-- four roles, and the distinct addresses among them.
get_security_report_lem :
    (env : Env) (now failed tokens : ℕ) (q : AnomalyQueries) (b : Backend env)
    → let live = env.sessions.find (λ s. ltb now s.expires_at) b.sessions in
      let r = get_security_report env now failed tokens q b in
      (r.active_sessions ≡ length live)
      × (r.unique_active_ips ≡ length (distinct (addresses_of live)))
      × (r.active_sessions_by_role.admin ≡ with_role "admin" live)
      × (r.active_sessions_by_role.supervisor ≡ with_role "supervisor" live)
      × (r.active_sessions_by_role.operator ≡ with_role "operator" live)
      × (r.active_sessions_by_role.viewer ≡ with_role "viewer" live)
unfolding get_security_report
get_security_report_lem env now failed tokens q b =
    let live = env.sessions.find (λ s. ltb now s.expires_at) b.sessions in
    let roles = tally-roles live no_roles [] in
    (
      refl,
      ap length (
          tally-addresses live no_roles []
          ∙ add_all-distinct (addresses_of live) []
          ∙ without_none (distinct (addresses_of live))),
      ground (arith, roles),
      ground (arith, roles),
      ground (arith, roles),
      ground (arith, roles),
    )
