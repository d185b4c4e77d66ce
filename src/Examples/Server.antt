-- ===== src/Examples/Server.antt =====
-- A Redis server, tokens and a backend over the list tables.
use Prim.Native.String
use mathlib.Core.List.{Memᴰ}
use Prim.Native.Char.{code}
use mediavault_backend.Prelude.{
  ℕ, ◌+◌, ◌*◌, ◌≤◌, ◌<◌, String, true, false, Option, none, some, [], ◌∷◌, ◌≡◌, ◌==◌, arith,
  if◌then◌else◌, ltb, Map, get, set, delete, get-set, get-delete, eq_refl, eqb, Bool, ap, List,
  filter, keys, ◌&&◌, ◌++◌, All, refl, sym, subst, ◌∙◌,
}
use mediavault_backend.Platform.RedisClient.{RedisClient, Iteration, last, page}
use mediavault_backend.Platform.Tokens.{Tokens}
use mediavault_backend.Backend.{User, Role, user_id, role_id, session_id, Env, Backend}
use mediavault_backend.Examples.Tables.{list_repository}

-- A value with the time at which it expires.
abbrev pub Entry : Type 0
Entry = String × ℕ

abbrev pub live_value : ℕ → Option Entry → Option String
live_value now none = none
live_value now (some (v, expiry)) = if ltb now expiry then some v else none

abbrev pub live_count : ℕ → Option Entry → ℕ
live_count now none = 0
live_count now (some (v, expiry)) = if ltb now expiry then 1 else 0

pub live_set :
    (now later ttl : ℕ) (k v : String) (s s' : Map Entry) (n : ℕ)
    → some (set k (v, now + 1000 * ttl) s) ≡ some s'
    → now ≤ later
    → later < now + 1000 * ttl
    → some (live_count later (get k s')) ≡ some n
    → n ≡ 1
live_set now later ttl k v s s' n e h h' f =
    ground (arith, get-set k k (v, now + 1000 * ttl) s, eq_refl k)

pub other_set :
    (now later ttl : ℕ) (k j v : String) (s s' : Map Entry)
    → some (set k (v, now + 1000 * ttl) s) ≡ some s'
    → (k == j) ≡ false
    → some (live_count later (get j s')) ≡ some (live_count later (get j s))
other_set now later ttl k j v s s' e ne = ground (arith, get-set k j (v, now + 1000 * ttl) s)

pub value_set :
    (now later ttl : ℕ) (k v : String) (s s' : Map Entry) (found : Option String)
    → some (set k (v, now + 1000 * ttl) s) ≡ some s'
    → now ≤ later
    → later < now + 1000 * ttl
    → some (live_value later (get k s')) ≡ some found
    → found ≡ some v
value_set now later ttl k v s s' found e h h' f =
    ground (arith, get-set k k (v, now + 1000 * ttl) s, eq_refl k)

pub value_del :
    (now : ℕ) (k : String) (s s' : Map Entry) (found : Option String)
    → some (delete k s) ≡ some s'
    → some (live_value now (get k s')) ≡ some found
    → found ≡ none
value_del now k s s' found e f = ground (arith, get-delete k k s, eq_refl k)

pub count_del :
    (now : ℕ) (k : String) (s s' : Map Entry) (n : ℕ)
    → some (delete k s) ≡ some s'
    → some (live_count now (get k s')) ≡ some n
    → n ≡ 0
count_del now k s s' n e f = ground (arith, get-delete k k s, eq_refl k)

-- A pattern with a star at its end, or none.
abbrev pub glob : String → String → Bool
glob String.[] String.[] = true
glob String.[] (String.◌∷◌ d t) = false
glob (String.◌∷◌ c p) String.[] = eqb (code c) b'*'
glob (String.◌∷◌ c p) (String.◌∷◌ d t) =
    if eqb (code c) b'*' then true else eqb (code c) (code d) && glob p t

abbrev pub first_page : List String → List String
first_page [] = []
first_page (k ∷ ks) = k ∷ []

abbrev pub later_page : List String → List String
later_page [] = []
later_page (k ∷ ks) = ks

-- Two pages, the first with one key at most.
abbrev pub map_scan : String → String → ℕ → Map Entry → Option (String × List String)
map_scan cursor pattern n s =
    if cursor == "0"
    then some ("1", first_page (filter (glob pattern) (keys s)))
    else some ("0", later_page (filter (glob pattern) (keys s)))

abbrev pub map_remaining : String → Map Entry → ℕ
map_remaining cursor s = if cursor == "0" then 1 else 0

abbrev map_page : Bool → List String → List String → Option (String × List String)
map_page first a b = if first then some ("1", a) else some ("0", b)

is_last : Option (String × List String) → Bool
is_last none = true
is_last (some (c, ks)) = c == "0"

two_pages_end :
    (first : Bool) (cursor' : String) (a b ks : List String)
    → map_page first a b ≡ some (cursor', ks)
    → (cursor' == "0") ≡ false
    → (if cursor' == "0" then 1 else 0) < (if first then 1 else 0)
unfolding is_last
two_pages_end true cursor' a b ks e f = rw f (omega arith)
two_pages_end false cursor' a b ks e f =
    absurd (ground (arith, ap (λ (o : Option (String × List String)). is_last o) e))

pub map_scan_ends :
    (cursor cursor' pattern : String) (n : ℕ) (ks : List String) (s : Map Entry)
    → map_scan cursor pattern n s ≡ some (cursor', ks)
    → (cursor' == "0") ≡ false
    → map_remaining cursor' s < map_remaining cursor s
map_scan_ends cursor cursor' pattern n ks s e f =
    two_pages_end (cursor == "0") cursor' (first_page (filter (glob pattern) (keys s)))
      (later_page (filter (glob pattern) (keys s))) ks e f

abbrev pub map_matching : String → Map Entry → List String
map_matching pattern s = filter (glob pattern) (keys s)

first_later : (ks : List String) → first_page ks ++ later_page ks ≡ ks
first_later [] = refl
first_later (k ∷ ks) = refl

All-intro : (P : String → Type 0) (xs : List String) → ((x : String) → Memᴰ x xs → P x) → All P xs
All-intro P [] h = tt
All-intro P (x ∷ xs) h = (h x (Memᴰ.head refl), All-intro P xs (λ y m. h y (Memᴰ.tail m)))

All-self : (ks : List String) → All (λ k. Memᴰ k ks) ks
All-self ks = All-intro (λ k. Memᴰ k ks) ks (λ k m. m)

first_page-matches : (m : List String) → All (λ k. Memᴰ k m) (first_page m)
first_page-matches [] = tt
first_page-matches (k ∷ ks) = (Memᴰ.head refl, tt)

later_page-matches : (m : List String) → All (λ k. Memᴰ k m) (later_page m)
later_page-matches [] = tt
later_page-matches (k ∷ ks) = All-intro (λ x. Memᴰ x (k ∷ ks)) ks (λ x m. Memᴰ.tail m)

page_cursor : Option (String × List String) → String
page_cursor none = ""
page_cursor (some (c, ks)) = c

page_keys : Option (String × List String) → List String
page_keys none = []
page_keys (some (c, ks)) = ks

page_parts :
    (first : Bool) (next : String) (a b ks : List String)
    → map_page first a b ≡ some (next, ks)
    → (next ≡ (if first then "1" else "0")) × (ks ≡ (if first then a else b))
unfolding page_cursor page_keys
page_parts true next a b ks e = (sym (ap page_cursor e), sym (ap page_keys e))
page_parts false next a b ks e = (sym (ap page_cursor e), sym (ap page_keys e))

-- The keys of a page are some of those that match.
page-matches :
    (first : Bool) (next : String) (m ks : List String)
    → map_page first (first_page m) (later_page m) ≡ some (next, ks)
    → All (λ k. Memᴰ k m) ks
page-matches true next m ks e =
    subst (All (λ k. Memᴰ k m)) (sym (page_parts true next (first_page m) (later_page m) ks e).1)
      (first_page-matches m)
page-matches false next m ks e =
    subst (All (λ k. Memᴰ k m)) (sym (page_parts false next (first_page m) (later_page m) ks e).1)
      (later_page-matches m)

pub map_scan_matches :
    (cursor cursor' pattern : String) (n : ℕ) (ks : List String) (s : Map Entry)
    → map_scan cursor pattern n s ≡ some (cursor', ks)
    → All (λ k. Memᴰ k (map_matching pattern s)) ks
map_scan_matches cursor cursor' pattern n ks s e =
    page-matches (cursor == "0") cursor' (map_matching pattern s) ks e

-- The page that ends an iteration, and one that does not.
last_page :
    (first : Bool) (next : String) (m ks : List String)
    → map_page first (first_page m) (later_page m) ≡ some (next, ks)
    → (next == "0") ≡ true
    → ks ≡ (if first then m else later_page m)
last_page true next m ks e z =
    let (c, k) = page_parts true next (first_page m) (later_page m) ks e in
    let wrong : false ≡ true = subst (λ (x : String). (x == "0") ≡ true) c z in absurd (cc)
last_page false next m ks e z = (page_parts false next (first_page m) (later_page m) ks e).1

inner_page :
    (first : Bool) (next : String) (m ks rest : List String)
    → map_page first (first_page m) (later_page m) ≡ some (next, ks)
    → (next == "0") ≡ false
    → rest ≡ (if next == "0" then m else later_page m)
    → ks ++ rest ≡ (if first then m else later_page m)
inner_page true next m ks rest e z r =
    let (c, k) = page_parts true next (first_page m) (later_page m) ks e in
    let r' : rest ≡ later_page m =
      subst (λ (b : Bool). rest ≡ (if b then m else later_page m)) z r in
    ap (λ l. l ++ rest) k ∙ ap (λ l. first_page m ++ l) r' ∙ first_later m
inner_page false next m ks rest e z r =
    let (c, k) = page_parts false next (first_page m) (later_page m) ks e in
    let wrong : true ≡ false = subst (λ (x : String). (x == "0") ≡ false) c z in absurd (cc)

-- What an iteration returns from the first cursor, and from the other one.
map_scan-Iteration :
    (pattern : String) (n : ℕ) (s : Map Entry) (cursor : String) (ks : List String)
    → Iteration map_scan pattern n s cursor ks
    → ks ≡ (if cursor == "0" then map_matching pattern s else later_page (map_matching pattern s))
map_scan-Iteration pattern n s _ _ (last cursor next ks e z) =
    last_page (cursor == "0") next (map_matching pattern s) ks e z
map_scan-Iteration pattern n s _ _ (page cursor next ks rest e z i) =
    inner_page (cursor == "0") next (map_matching pattern s) ks rest e z
      (map_scan-Iteration pattern n s next rest i)

pub map_scan_complete :
    (pattern : String) (n : ℕ) (ks : List String) (s : Map Entry)
    → Iteration map_scan pattern n s "0" ks
    → All (λ k. Memᴰ k ks) (map_matching pattern s)
map_scan_complete pattern n ks s i =
    subst (λ l. All (λ k. Memᴰ k l) (map_matching pattern s))
      (sym (map_scan-Iteration pattern n s "0" ks i)) (All-self (map_matching pattern s))

abbrev pub map_redis : RedisClient
map_redis = record {
  Server = Map Entry;
  set = λ now k v ttl s. some (set k (v, now + 1000 * ttl) s);
  get = λ now k s. some (live_value now (get k s));
  del = λ k s. some (delete k s);
  exists = λ now k s. some (live_count now (get k s));
  ping = λ s. some "PONG";
  scan = map_scan;
  matching = map_matching;
  scan_matches = map_scan_matches;
  scan_complete = map_scan_complete;
  remaining = map_remaining;
  scan_ends = map_scan_ends;
  exists-set_live = live_set;
  exists-set_other = other_set;
  get-set_live = value_set;
  get-del = value_del;
  exists-del = count_del;
}

abbrev pub plain_tokens : Tokens
plain_tokens = record {
  bcrypt_compare = λ password hash. password == hash;
  bcrypt_hash = λ password rounds. password;
  sha256 = λ s. s;
  sign = λ now p. String.◌++◌ (if ltb now 50 then "early:" else "late:") p.session_id;
  sign_refresh = λ now secret lifetime p. String.◌++◌ "refresh:" p.session_id;
  decode_exp = λ t. some (some 900);
  verify = λ now t secret. none;
  to_lower_case = λ s. s;
}

abbrev pub env : Env
env = record {
  users = list_repository user_id;
  roles = list_repository role_id;
  sessions = list_repository session_id;
  redis = map_redis;
  tokens = plain_tokens;
  jwt = record { secret = none; refresh_secret = none; refresh_expires_in = none };
}

abbrev pub operator_role : Role
operator_role = record {
  id = "r2";
  name = "operator";
  description = none;
  permissions = none;
  is_system = true;
}

abbrev pub admin_role : Role
admin_role = record {
  id = "r1";
  name = "admin";
  description = none;
  permissions = none;
  is_system = true;
}

abbrev pub user_named : String → String → Role → User
user_named id email role = record {
  id = id;
  email = email;
  password_hash = "pw";
  first_name = "";
  last_name = "";
  id_type = none;
  id_number = none;
  cargo = none;
  zone_id = none;
  quadrant_id = none;
  is_active = true;
  role = role;
  created_at = 0;
  updated_at = 0;
}

abbrev pub ana : User
ana = user_named "u1" "ana@x" operator_role

abbrev pub root : User
root = user_named "u0" "root@x" admin_role

abbrev pub backend : Backend env
backend = record {
  users = ana ∷ root ∷ [];
  roles = operator_role ∷ admin_role ∷ [];
  sessions = [];
  redis = record { client = some []; available = true };
  audit = [];
  sent = [];
}
