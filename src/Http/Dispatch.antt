-- ===== src/Http/Dispatch.antt =====
-- What a request meets on its way to a method: the guards of src/modules/auth/guards, first those of
-- src/app.module.ts, and the pipes of the parameters.
use mediavault_backend.Prelude.{
  String, Bool, true, false, Option, none, some, List, [], ◌∷◌, ◌&&◌, map, if◌then◌else◌, Map,
  get_or, Result, ok, err, unauthorized, forbidden, not_found, bad_request,
}
use mediavault_backend.Prelude as Prelude
use mediavault_backend.Auth.Guards.{AuthUser, roles_can_activate}
use mediavault_backend.Http.Request.{HttpRequest, client_ip, login_ip, raw_token}
use mediavault_backend.Http.Route.{
  Segment, text, param, uuid, Argument, Guard, jwt_auth_guard, jwt_refresh_guard,
}
use mediavault_backend.Http.Router.{Endpoint, endpoints, bind_params, find_route}

-- `request.user`; after the refresh guard it has no role and no address.
pub record Caller : Type 0 where
  pub user_id : String
  pub session_id : String
  pub role : Option String
  pub email : Option String

abbrev pub caller_of : AuthUser → Caller
caller_of u = record {
  user_id = u.user_id;
  session_id = u.session_id;
  role = some u.role;
  email = some u.email;
}

-- What a guard leaves as `request.user`; passport throws if its strategy does.
abbrev pub run_guard : Bool → HttpRequest → Guard → Option Caller → Result (Option Caller)
run_guard true req jwt_auth_guard u = ok u
run_guard false req jwt_auth_guard u = elim req.jwt [
  | none ↦ err unauthorized
  | some v ↦ ok (some (caller_of v))
]
run_guard is_public req jwt_refresh_guard u = elim req.refresh [
  | none ↦ err unauthorized
  | some (uid, sid) ↦
      ok (some (record { user_id = uid; session_id = sid; role = none; email = none }))
]

unfoldable pub run_guards : Bool → HttpRequest → List Guard → Option Caller → Result (Option Caller)
run_guards is_public req [] u = ok u
run_guards is_public req (g ∷ gs) u = elim (run_guard is_public req g u) [
  | err x ↦ err x
  | ok v ↦ run_guards is_public req gs v
]

-- What a method passes to the service.
pub data Value : Type 0 where
  string : String → Value
  undefined request_body request_query request_file : Value
  request_user : Option Caller → Value

abbrev pub string_or_undefined : Option String → Value
string_or_undefined none = undefined
string_or_undefined (some s) = string s

abbrev pub caller_id : Option Caller → Value
caller_id none = undefined
caller_id (some u) = string u.user_id

abbrev pub caller_session : Option Caller → Value
caller_session none = undefined
caller_session (some u) = string u.session_id

abbrev pub caller_role : Option Caller → Value
caller_role none = undefined
caller_role (some u) = string_or_undefined u.role

abbrev pub value_of : HttpRequest → Map String → Option Caller → Argument → Value
value_of req params u Argument.body = request_body
value_of req params u Argument.query = request_query
value_of req params u Argument.user = request_user u
value_of req params u Argument.user_id = caller_id u
value_of req params u Argument.user_role = caller_role u
value_of req params u Argument.user_session = caller_session u
value_of req params u Argument.client_ip = string (client_ip req)
value_of req params u Argument.login_ip = string (login_ip req)
value_of req params u Argument.req_ip = string_or_undefined req.ip
value_of req params u Argument.user_agent = string (get_or req.user_agent "")
value_of req params u Argument.raw_token = string (raw_token req)
value_of req params u Argument.file = request_file
value_of req params u (Argument.of_param name) = string_or_undefined (Prelude.get name params)
value_of req params u (Argument.body_field name) = string_or_undefined (Prelude.get name req.body)
value_of req params u (Argument.query_field name) = string_or_undefined (Prelude.get name req.query)
value_of req params u (Argument.constant s) = string s

-- The call that the framework makes.
pub record Call : Type 0 where
  pub endpoint : Endpoint
  pub user : Option Caller
  pub params : Map String
  pub arguments : List Value

abbrev pub call_of : HttpRequest → Endpoint → Option Caller → Call
call_of req e u = record {
  endpoint = e;
  user = u;
  params = bind_params e.path req.path;
  arguments = map (value_of req (bind_params e.path req.path) u) e.route.arguments;
}

abbrev pub role_of : Option Caller → Option (Option String)
role_of none = none
role_of (some u) = some u.role

module _ (is_uuid : String → Bool) where
  -- `ParseUUIDPipe` lets the parameters pass.
  unfoldable pub accepts : List Segment → List String → Bool
  accepts [] ss = true
  accepts (p ∷ ps) [] = true
  accepts (uuid name ∷ ps) (s ∷ ss) = is_uuid s && accepts ps ss
  accepts (text t ∷ ps) (s ∷ ss) = accepts ps ss
  accepts (param name ∷ ps) (s ∷ ss) = accepts ps ss

-- `validates` is the verdict of the global `ValidationPipe` on the body and the query, which the
-- validators of the classes of the parameters decide.
module _ (is_uuid : String → Bool) (validates : Endpoint → HttpRequest → Bool) where
  -- The guards of the method and its pipes, for a user whom the roles let in.
  abbrev pub enter : Endpoint → HttpRequest → Option Caller → Result Call
  enter e req u = elim (run_guards e.route.is_public req e.guards u) [
    | err x ↦ err x
    | ok v ↦
        if accepts is_uuid e.path req.path && validates e req
        then ok (call_of req e v)
        else err bad_request
  ]

  unfoldable pub serve : Endpoint → HttpRequest → Result Call
  serve e req = elim (run_guard e.route.is_public req jwt_auth_guard none) [
    | err x ↦ err x
    | ok u ↦ if roles_can_activate e.roles (role_of u) then enter e req u else err forbidden
  ]

  unfoldable pub dispatch : HttpRequest → Result Call
  dispatch req = elim (find_route req.verb req.path endpoints) [
    | none ↦ err not_found
    | some e ↦ serve e req
  ]
