-- ===== src/Examples/Requests.antt =====
-- The theorems on the HTTP layer at a login and at a change of the own profile.
use mediavault_backend.Prelude.{
  List, Action, ℕ, ◌≤◌, String, Bool, true, none, some, [], ◌∷◌, ◌≡◌, ◌⊎◌, eqb, refl, ok,
}
use mediavault_backend.Auth.Guards.{AuthUser, roles_can_activate}
use mediavault_backend.Audit.{AuditLog, log_action}
use mediavault_backend.Http.Request.{get, post, patch, HttpRequest}
use mediavault_backend.Http.Route.{
  text, uuid, body, of_param, user_role, allow, audited, everyone, login_ip, user_agent, user_id,
  endpoint, open_to_all, answers,
}
use mediavault_backend.Http.Endpoints.{auth_controller, users_controller, evidences_controller}
use mediavault_backend.Http.Router.{
  Endpoint, mount_route, endpoints, find_route, matches, bind_params,
}
use mediavault_backend.Http.Dispatch.{
  Call, caller_of, call_of, dispatch, serve, run_guards, accepts, string,
}
use mediavault_backend.Http.Guarding.{member}
use mediavault_backend.Http.Access.{
  open_methods, own_methods, changers, dispatch_anonymous, dispatch_changes,
}
use mediavault_backend.Http.OwnAccount.{head, dispatch_own}
use mediavault_backend.Http.Reachable.{text_length}
use mediavault_backend.Http.Interception.{handle, handle-accountable, success}

abbrev is_uuid : String → Bool
is_uuid s = eqb (text_length s) 36

abbrev valid : Endpoint → HttpRequest → Bool
valid e req = true

abbrev login_request : HttpRequest
login_request = record {
  verb = post;
  path = "api" ∷ "auth" ∷ "login" ∷ [];
  query = [];
  body = ("email", "ana@x") ∷ [];
  jwt = none;
  refresh = none;
  forwarded = some "10.0.0.1, 10.0.0.2";
  remote_address = none;
  ip = none;
  user_agent = none;
  authorization = none;
}

abbrev login_endpoint : Endpoint
login_endpoint = mount_route auth_controller (
    open_to_all (
      answers 200 (
        endpoint post (text "login" ∷ []) "AuthController.login" "AuthService.login"
          (body ∷ login_ip ∷ user_agent ∷ []))))

login_dispatched :
    dispatch is_uuid valid login_request ≡ ok (call_of login_request login_endpoint none)
unfolding dispatch find_route matches bind_params serve run_guards accepts endpoints
    roles_can_activate
login_dispatched = refl

dispatch_anonymous_example : member open_methods "AuthController.login" ≡ true
dispatch_anonymous_example =
    dispatch_anonymous is_uuid valid login_request (call_of login_request login_endpoint none) refl
      refl login_dispatched

abbrev viewer : AuthUser
viewer = record { user_id = "u1"; email = "ana@x"; role = "viewer"; session_id = "s1" }

abbrev profile : HttpRequest
profile = record login_request {
  verb = patch;
  path = "api" ∷ "users" ∷ "me" ∷ [];
  body = ("id", "u2") ∷ ("firstName", "Eva") ∷ [];
  jwt = some viewer;
}

abbrev profile_endpoint : Endpoint
profile_endpoint = mount_route users_controller (
    endpoint patch (text "me" ∷ []) "UsersController.updateMe" "UsersService.updateProfile"
      (user_id ∷ body ∷ []))

abbrev profile_call : Call
profile_call = call_of profile profile_endpoint (some (caller_of viewer))

profile_dispatched : dispatch is_uuid valid profile ≡ ok profile_call
unfolding dispatch find_route matches bind_params serve run_guards accepts endpoints
    roles_can_activate
profile_dispatched = refl

dispatch_changes_example :
    (member own_methods "UsersController.updateMe" ≡ true)
    ⊎ ((v : AuthUser) × (profile.jwt ≡ some v) × (member changers v.role ≡ true))
dispatch_changes_example =
    dispatch_changes is_uuid valid profile profile_call refl profile_dispatched

dispatch_own_example :
    (v : AuthUser) × (profile.jwt ≡ some v)
    × (head profile_call.arguments ≡ some (string v.user_id))
dispatch_own_example = dispatch_own is_uuid valid profile profile_call refl profile_dispatched

abbrev viewing : HttpRequest
viewing = record login_request {
  verb = get;
  path = "api" ∷ "evidences" ∷ "0e8a1f60-0000-4000-8000-000000000001" ∷ [];
  body = [];
  jwt = some viewer;
}

abbrev viewing_endpoint : Endpoint
viewing_endpoint = mount_route evidences_controller (
    allow everyone (
      audited "EVIDENCE_VIEWED" "Evidence" (
        endpoint get (uuid "id" ∷ []) "EvidencesController.findOne" "EvidencesService.findOne"
          (of_param "id" ∷ user_id ∷ user_role ∷ []))))

abbrev viewing_call : Call
viewing_call = call_of viewing viewing_endpoint (some (caller_of viewer))

viewing_dispatched : dispatch is_uuid valid viewing ≡ ok viewing_call
unfolding dispatch find_route matches bind_params serve run_guards accepts endpoints
    roles_can_activate
viewing_dispatched = refl

-- A method that writes to the log itself.
abbrev method : Call → Action (List AuditLog) ℕ
method c entries =
    (log_action "EVIDENCE_VIEWED" "Evidence" none (some "u1") none none entries, ok 7)

handle-accountable_example :
    (v : AuthUser) × (entry : AuditLog) × (viewing.jwt ≡ some v)
    × (handle is_uuid valid method viewing [] ≡ (entry ∷ (method viewing_call []).0, success 200 7))
    × (entry.action ≡ "EVIDENCE_VIEWED")
    × (entry.user_id ≡ some v.user_id)
    × (200 ≤ 200)
    × (200 ≤ 204)
handle-accountable_example =
    handle-accountable is_uuid valid method viewing [] (method viewing_call []).0 viewing_call 7
      (record { action = "EVIDENCE_VIEWED"; entity_type = some "Evidence" }) viewing_dispatched refl
      refl
