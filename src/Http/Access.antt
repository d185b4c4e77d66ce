-- ===== src/Http/Access.antt =====
-- Who reaches which methods of the controllers of src/app.module.ts.
use mediavault_backend.Prelude.{
  String, Bool, true, false, Option, none, some, List, [], ◌∷◌, ◌||◌, not, ◌≡◌, refl, sym, subst,
  ◌⊎◌, inl, inr, arith, if◌then◌else◌, all, ok, Bool-cases,
}
use mediavault_backend.Auth.Guards.{AuthUser, roles_can_activate}
use mediavault_backend.Http.Request.{Verb, get, post, put, patch, delete, HttpRequest}
use mediavault_backend.Http.Route.{Segment, text, Guard, jwt_auth_guard, jwt_refresh_guard}
use mediavault_backend.Http.Router.{Endpoint, endpoints, same_verb}
use mediavault_backend.Http.Dispatch.{
  Caller, run_guard, run_guards, role_of, Call, call_of, dispatch,
}
use mediavault_backend.Http.Guarding.{
  member, find_route-passes, limits, limits-user, serve-ok, dispatch-ok,
}

-- The methods that need no token, and the one that needs the token of the cookie.
abbrev pub open_methods : List String
open_methods =
    "AuthController.login" ∷ "EvidencesController.downloadEvidence" ∷ "HealthController.check" ∷ []

abbrev begins_with_refresh : List Guard → Bool
begins_with_refresh (jwt_refresh_guard ∷ gs) = true
begins_with_refresh _ = false

abbrev is_open : Endpoint → Bool
is_open e =
    if e.route.is_public
    then member open_methods e.route.handler || begins_with_refresh e.guards
    else true

endpoints_open : all is_open endpoints ≡ true
unfolding endpoints
endpoints_open = refl

-- The methods by which users change what is their own, and the two that need no access token.
abbrev pub own_methods : List String
own_methods =
    "AuthController.login" ∷ "AuthController.refresh" ∷ "AuthController.logout"
    ∷ "AuthController.logoutAll" ∷ "UsersController.updateMe" ∷ "UsersController.changeOwnPassword"
    ∷ []

abbrev pub changers : List String
changers = "admin" ∷ "supervisor" ∷ "operator" ∷ "superadmin" ∷ []

abbrev changes_guarded : Endpoint → Bool
changes_guarded e =
    same_verb e.route.verb get || member own_methods e.route.handler || limits changers e.roles

endpoints_changes : all changes_guarded endpoints ≡ true
unfolding endpoints
endpoints_changes = refl

-- The methods that concern accounts, roles and sessions.
abbrev pub of_accounts : List Segment → Bool
of_accounts (text api ∷ text prefix ∷ path) =
    member ("auth" ∷ "users" ∷ "roles" ∷ "security" ∷ []) prefix
of_accounts _ = false

abbrev administration_guarded : Endpoint → Bool
administration_guarded e =
    same_verb e.route.verb get
    || member own_methods e.route.handler
    || (not (of_accounts e.path) || limits ("admin" ∷ "superadmin" ∷ []) e.roles)

endpoints_administration : all administration_guarded endpoints ≡ true
unfolding endpoints
endpoints_administration = refl

or-right : {a b c : Bool} → a ≡ false → b ≡ false → (a || b || c) ≡ true → c ≡ true
or-right p q h = ground arith

guarded_limits :
    (a b c d : Bool) → a ≡ false → b ≡ false → c ≡ true → (a || b || (not c || d)) ≡ true → d ≡ true
guarded_limits a b c d p q r h = ground arith

same_verb-get :
    (v w : Verb) → same_verb v w ≡ true → same_verb w get ≡ false → same_verb v get ≡ false
same_verb-get get get h k = cc
same_verb-get get post h k = cc
same_verb-get get put h k = cc
same_verb-get get patch h k = cc
same_verb-get get delete h k = cc
same_verb-get post w h k = refl
same_verb-get put w h k = refl
same_verb-get patch w h k = refl
same_verb-get delete w h k = refl

-- Without tokens the guards stop a request at a route that is not open.
anonymous_stopped :
    (b known : Bool) (guards : List Guard) (req : HttpRequest) (u v : Option Caller)
    → req.jwt ≡ none
    → req.refresh ≡ none
    → (if b then known || begins_with_refresh guards else true) ≡ true
    → run_guard b req jwt_auth_guard none ≡ ok u
    → run_guards b req guards u ≡ ok v
    → known ≡ true
unfolding run_guards
anonymous_stopped false known guards req u v j f h g k = absurd (ground arith)
anonymous_stopped true known [] req u v j f h g k = ground arith
anonymous_stopped true known (jwt_auth_guard ∷ gs) req u v j f h g k = ground arith
anonymous_stopped true known (jwt_refresh_guard ∷ gs) req u v j f h g k = absurd (ground arith)

module _ (is_uuid : String → Bool) (validates : Endpoint → HttpRequest → Bool) where
  -- A call that is made is of a route of the table, for the verb of the request, that has passed
  -- the guards.
  pub dispatch-passes :
      (q : Endpoint → Bool) (req : HttpRequest) (call : Call)
      → all q endpoints ≡ true
      → dispatch is_uuid validates req ≡ ok call
      → (e : Endpoint) × (q e ≡ true)
        × (same_verb e.route.verb req.verb ≡ true)
        × (u : Option Caller) × (v : Option Caller) × (run_guard e.route.is_public req
              jwt_auth_guard none
            ≡ ok u)
        × (roles_can_activate e.roles (role_of u) ≡ true)
        × (run_guards e.route.is_public req e.guards u ≡ ok v)
        × (call ≡ call_of req e v)
  dispatch-passes q req call h d =
      let (e, f, s) = dispatch-ok is_uuid validates req call d in
      let (p, w) = find_route-passes q req.verb req.path endpoints e h f in
      let (u, v, g, r, k, c) = serve-ok is_uuid validates e req call s in
      (e, p, w, u, v, g, r, k, c)

  -- A request without a token reaches no method but the login, the download by a link and the
  -- health check.
  pub dispatch_anonymous :
      (req : HttpRequest) (call : Call)
      → req.jwt ≡ none
      → req.refresh ≡ none
      → dispatch is_uuid validates req ≡ ok call
      → member open_methods call.endpoint.route.handler ≡ true
  dispatch_anonymous req call j f d =
      let (e, p, w, u, v, g, r, k, c) = dispatch-passes is_open req call endpoints_open d in
      let known =
        anonymous_stopped e.route.is_public (member open_methods e.route.handler) e.guards req u v j
          f p g k in
      subst (λ (x : Call). member open_methods x.endpoint.route.handler ≡ true) (sym c) known

  -- A request that is no GET and reaches a method has the token of a user with the role of an
  -- administrator, a supervisor, an operator or a super administrator, or the method is one of
  -- those by which users change what is their own, a login or a refresh.
  pub dispatch_changes :
      (req : HttpRequest) (call : Call)
      → same_verb req.verb get ≡ false
      → dispatch is_uuid validates req ≡ ok call
      → (member own_methods call.endpoint.route.handler ≡ true)
        ⊎ ((v : AuthUser) × (req.jwt ≡ some v) × (member changers v.role ≡ true))
  dispatch_changes req call n d =
      let (e, p, w, u, v, g, r, k, c) =
        dispatch-passes changes_guarded req call endpoints_changes d in
      elim (Bool-cases (member own_methods e.route.handler)) [
        | inl own ↦
            inl
              (subst (λ (x : Call). member own_methods x.endpoint.route.handler ≡ true) (sym c) own)
        | inr other ↦ inr (
            limits-user changers e.roles e.route.is_public req u
              (or-right (same_verb-get e.route.verb req.verb w n) other p) g r)
      ]

  -- A request that is no GET and reaches a method on accounts, roles or sessions, but for the
  -- logins and what users change of their own, has the token of an administrator or a super
  -- administrator.
  dispatch_administers :
      (req : HttpRequest) (call : Call)
      → same_verb req.verb get ≡ false
      → of_accounts call.endpoint.path ≡ true
      → member own_methods call.endpoint.route.handler ≡ false
      → dispatch is_uuid validates req ≡ ok call
      → (v : AuthUser) × (req.jwt ≡ some v) × (member ("admin" ∷ "superadmin" ∷ []) v.role ≡ true)
  dispatch_administers req call n a o d =
      let (e, p, w, u, v, g, r, k, c) =
        dispatch-passes administration_guarded req call endpoints_administration d in
      let a' = subst (λ (x : Call). of_accounts x.endpoint.path ≡ true) c a in
      let o' = subst (λ (x : Call). member own_methods x.endpoint.route.handler ≡ false) c o in
      limits-user ("admin" ∷ "superadmin" ∷ []) e.roles e.route.is_public req u
        (guarded_limits (same_verb e.route.verb get) (member own_methods e.route.handler)
          (of_accounts e.path) (limits ("admin" ∷ "superadmin" ∷ []) e.roles)
          (same_verb-get e.route.verb req.verb w n) o' a' p)
        g r
