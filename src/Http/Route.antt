-- ===== src/Http/Route.antt =====
-- The decorators of a controller's methods, and the service call that a method makes.
use mediavault_backend.Prelude.{ℕ, String, Bool, true, false, Option, none, some, List, [], ◌∷◌}
use mediavault_backend.Http.Request.{Verb, post}

-- `'users'`, `':name'`, and `':id'` of a `@Param('id', ParseUUIDPipe)`.
pub data Segment : Type 0 where
  text param uuid : String → Segment

-- What a method passes on: a part of the request or of its user, or a constant.
pub data Argument : Type 0 where
  body query user user_id user_role user_session client_ip login_ip req_ip user_agent raw_token
        file :
      Argument
  of_param body_field query_field constant : String → Argument

-- `@UseGuards(JwtAuthGuard)` and `@UseGuards(JwtRefreshGuard)`.
pub data Guard : Type 0 where
  jwt_auth_guard jwt_refresh_guard : Guard

-- `AuditMetadata`.
pub record AuditMetadata : Type 0 where
  pub action : String
  pub entity_type : Option String

pub record Route : Type 0 where
  pub verb : Verb
  pub path : List Segment
  pub handler : String
  -- The service's method and its arguments, if the method's body is or starts with such a call.
  pub calls : String
  pub arguments : List Argument
  pub roles : Option (List String)
  pub is_public : Bool
  pub guards : List Guard
  pub audit : Option AuditMetadata
  pub code : ℕ

-- A POST is answered with 201, all else with 200, unless `@HttpCode` says otherwise.
abbrev pub default_code : Verb → ℕ
default_code post = 201
default_code _ = 200

abbrev pub endpoint : Verb → List Segment → String → String → List Argument → Route
endpoint verb path handler calls arguments = record {
  verb = verb;
  path = path;
  handler = handler;
  calls = calls;
  arguments = arguments;
  roles = none;
  is_public = false;
  guards = [];
  audit = none;
  code = default_code verb;
}

-- `@Roles`, `@Public()`, `@UseGuards`, `@HttpCode` and `@Audit`.
abbrev pub allow : List String → Route → Route
allow roles r = record r { roles = some roles }

abbrev pub open_to_all : Route → Route
open_to_all r = record r { is_public = true }

abbrev pub guarded : Guard → Route → Route
guarded g r = record r { guards = g ∷ [] }

abbrev pub answers : ℕ → Route → Route
answers code r = record r { code = code }

abbrev pub audited : String → String → Route → Route
audited action entity_type r = record r {
  audit = some (record { action = action; entity_type = some entity_type });
}

-- `@Controller(prefix)`, with the decorators of the class.
pub record Controller : Type 0 where
  pub prefix : String
  pub class_roles : Option (List String)
  pub class_guards : List Guard
  pub routes : List Route

abbrev pub controller : String → List Route → Controller
controller prefix routes = record {
  prefix = prefix;
  class_roles = none;
  class_guards = [];
  routes = routes;
}

abbrev pub admins : List String
admins = "admin" ∷ []

abbrev pub managers : List String
managers = "admin" ∷ "supervisor" ∷ []

abbrev pub staff : List String
staff = "admin" ∷ "supervisor" ∷ "operator" ∷ []

abbrev pub everyone : List String
everyone = "admin" ∷ "supervisor" ∷ "operator" ∷ "viewer" ∷ []
