-- ===== src/Http/OwnAccount.antt =====
-- The methods of the controllers for the user's own account and sessions.
use mediavault_backend.Prelude.{
  String, Bool, true, false, Option, none, some, List, [], ◌∷◌, ◌&&◌, not, ◌≡◌, refl, sym, subst,
  inl, inr, arith, if◌then◌else◌, all, map, Map, ok, Option-cases,
}
use mediavault_backend.Auth.Guards.{AuthUser}
use mediavault_backend.Http.Request.{HttpRequest}
use mediavault_backend.Http.Route.{Argument, Guard, jwt_auth_guard, jwt_refresh_guard}
use mediavault_backend.Http.Router.{Endpoint, endpoints, bind_params}
use mediavault_backend.Http.Dispatch.{
  Caller, caller_of, run_guard, run_guards, value_of, Call, Value, string, call_of, dispatch,
}
use mediavault_backend.Http.Guarding.{member, has_refresh}
use mediavault_backend.Http.Access.{dispatch-passes}

-- Those that take the user from the access token.
abbrev pub token_methods : List String
token_methods =
    "AuthController.logout" ∷ "AuthController.logoutAll" ∷ "AuthController.getSessions"
    ∷ "UsersController.getMe" ∷ "UsersController.updateMe" ∷ "UsersController.changeOwnPassword"
    ∷ []

abbrev begins_with_id : List Argument → Bool
begins_with_id (Argument.user_id ∷ args) = true
begins_with_id _ = false

abbrev takes_own_id : Endpoint → Bool
takes_own_id e =
    if member token_methods e.route.handler
    then not e.route.is_public && begins_with_id e.route.arguments && not (has_refresh e.guards)
    else true

endpoints_own : all takes_own_id endpoints ≡ true
unfolding endpoints
endpoints_own = refl

if-true : {a b : Bool} → a ≡ true → (if a then b else true) ≡ true → b ≡ true
if-true p q = ground arith

-- The guards leave the user of the access token.
token_user :
    (guards : List Guard) (req : HttpRequest) (w : AuthUser) (v : Option Caller)
    → req.jwt ≡ some w
    → has_refresh guards ≡ false
    → run_guards false req guards (some (caller_of w)) ≡ ok v
    → v ≡ some (caller_of w)
unfolding run_guards
token_user [] req w v j h k = ground arith
token_user (jwt_auth_guard ∷ gs) req w v j h k = ground (arith, token_user gs req w v j h)
token_user (jwt_refresh_guard ∷ gs) req w v j h k = absurd (cc)

pub head : List Value → Option Value
head [] = none
head (x ∷ xs) = some x

own_id_passed :
    (req : HttpRequest) (params : Map String) (w : AuthUser) (args : List Argument)
    → begins_with_id args ≡ true
    → head (map (value_of req params (some (caller_of w))) args) ≡ some (string w.user_id)
unfolding head
own_id_passed req params w [] h = absurd (cc)
own_id_passed req params w (Argument.user_id ∷ args) h = refl
own_id_passed req params w (a ∷ args) h = absurd (cc)

-- At a route that is not public and has no refresh guard.
pub own_user :
    (b : Bool) (guards : List Guard) (req : HttpRequest) (u v : Option Caller)
    → b ≡ false
    → has_refresh guards ≡ false
    → run_guard b req jwt_auth_guard none ≡ ok u
    → run_guards b req guards u ≡ ok v
    → (w : AuthUser) × (req.jwt ≡ some w) × (v ≡ some (caller_of w))
own_user true guards req u v p h g k = absurd (cc)
own_user false guards req u v p h g k = elim (Option-cases req.jwt) [
  | inl n ↦ absurd (ground arith)
  | inr (w, j) ↦ (w, j, ground (arith, token_user guards req w v j h))
]

own_id_kept :
    (e : Endpoint) (req : HttpRequest) (u v : Option Caller)
    → (not e.route.is_public && begins_with_id e.route.arguments && not (has_refresh e.guards))
      ≡ true
    → run_guard e.route.is_public req jwt_auth_guard none ≡ ok u
    → run_guards e.route.is_public req e.guards u ≡ ok v
    → (w : AuthUser) × (req.jwt ≡ some w)
      × (head (call_of req e v).arguments ≡ some (string w.user_id))
own_id_kept e req u v t g k =
    let (w, j, q) = own_user e.route.is_public e.guards req u v (ground arith) (ground arith) g k in
    (
      w,
      j,
      rw q (own_id_passed req (bind_params e.path req.path) w e.route.arguments (ground arith)),
    )

module _ (is_uuid : String → Bool) (validates : Endpoint → HttpRequest → Bool) where
  -- The methods for the user's own account and sessions hand the service the id of the user of the
  -- access token, whatever else the request holds.
  pub dispatch_own :
      (req : HttpRequest) (call : Call)
      → member token_methods call.endpoint.route.handler ≡ true
      → dispatch is_uuid validates req ≡ ok call
      → (v : AuthUser) × (req.jwt ≡ some v) × (head call.arguments ≡ some (string v.user_id))
  dispatch_own req call m d =
      let (e, p, w, u, v, g, r, k, c) =
        dispatch-passes is_uuid validates takes_own_id req call endpoints_own d in
      let m' = subst (λ (x : Call). member token_methods x.endpoint.route.handler ≡ true) c m in
      let (v', j, own) = own_id_kept e req u v (if-true m' p) g k in
      (v', j, subst (λ (x : Call). head x.arguments ≡ some (string v'.user_id)) (sym c) own)
