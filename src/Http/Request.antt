-- ===== src/Http/Request.antt =====
-- A request as the controllers see it, and the address and the token that they take from it:
-- src/modules/auth/auth.controller.ts, src/modules/evidences/evidences.controller.ts,
-- src/modules/streams/streams.controller.ts, src/common/interceptors/audit.interceptor.ts.
use Prim.Native.Char.{code}
use text.Mathlib.Text.{starts_with}
use mediavault_backend.Prelude.{
  String, Option, none, some, List, Map, ◌==◌, if◌then◌else◌, eqb, get_or,
}
use mediavault_backend.Prelude.Trim.{trim_start, trim_end}
use mediavault_backend.Auth.Guards.{AuthUser}

pub data Verb : Type 0 where
  get post put patch delete : Verb

-- The path in segments. `jwt` and `refresh` are what the two strategies answer, none if they throw;
-- `refresh` has the ids of the user and of the session.
pub record HttpRequest : Type 0 where
  pub verb : Verb
  pub path : List String
  pub query : Map String
  pub body : Map String
  pub jwt : Option AuthUser
  pub refresh : Option (String × String)
  pub forwarded : Option String
  pub remote_address : Option String
  pub ip : Option String
  pub user_agent : Option String
  pub authorization : Option String

-- `s.split(',')[0]`.
unfoldable pub before_comma : String → String
before_comma String.[] = String.[]
before_comma (String.◌∷◌ c s) =
    let rest = before_comma s in if eqb (code c) b',' then String.[] else String.◌∷◌ c rest

-- The first address of the header, trimmed.
abbrev pub first_entry : Option String → Option String
first_entry none = none
first_entry (some s) = some (trim_end (trim_start (before_comma s)))

abbrev pub or_else : Option String → Option String → Option String
or_else none o = o
or_else (some s) o = some s

-- `a || b`.
abbrev pub or_truthy : Option String → Option String → Option String
or_truthy none o = o
or_truthy (some s) o = if s == "" then o else some s

-- `clientIp` of the evidences and the streams.
unfoldable pub client_ip : HttpRequest → String
unfolding before_comma trim_start trim_end
client_ip r = get_or (or_else (first_entry r.forwarded) r.ip) ""

-- `ip` of a login.
unfoldable pub login_ip : HttpRequest → String
unfolding before_comma trim_start trim_end
login_ip r = get_or (or_truthy (first_entry r.forwarded) (or_truthy r.remote_address r.ip)) ""

-- `ipAddress` of the audit interceptor.
unfoldable pub audit_ip : HttpRequest → Option String
unfolding before_comma trim_start trim_end
audit_ip r = or_else (first_entry r.forwarded) r.ip

drop_prefix : String → String → String
drop_prefix String.[] s = s
drop_prefix (String.◌∷◌ c p) String.[] = String.[]
drop_prefix (String.◌∷◌ c p) (String.◌∷◌ d s) = drop_prefix p s

-- `s.replace('Bearer ', '')`, which removes the first occurrence wherever it stands.
unfoldable pub remove_bearer : String → String
unfolding drop_prefix
remove_bearer String.[] = String.[]
remove_bearer (String.◌∷◌ c s) =
    let rest = remove_bearer s in
    if starts_with (String.◌∷◌ c s) "Bearer "
    then drop_prefix "Bearer " (String.◌∷◌ c s)
    else String.◌∷◌ c rest

unfoldable pub raw_token : HttpRequest → String
unfolding remove_bearer
raw_token r = remove_bearer (get_or r.authorization "")
