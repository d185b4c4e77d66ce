-- ===== src/Http/Guarding.antt =====
-- What the guards and the search for a route let through, for a table of any routes.
use mediavault_backend.Prelude.{
  String, Bool, true, false, Option, none, some, List, [], ◌∷◌, ◌&&◌, ◌==◌, ◌≡◌, refl, inl, inr,
  arith, all, any, ok, Bool-cases, Result-cases, Option-cases, eq_iff,
}
use mediavault_backend.Auth.Guards.{AuthUser, roles_can_activate}
use mediavault_backend.Http.Request.{Verb, HttpRequest}
use mediavault_backend.Http.Route.{Guard, jwt_auth_guard, jwt_refresh_guard}
use mediavault_backend.Http.Router.{Endpoint, endpoints, same_verb, matches, find_route}
use mediavault_backend.Http.Dispatch.{
  Caller, run_guard, run_guards, role_of, accepts, Call, call_of, serve, dispatch,
}

abbrev pub member : List String → String → Bool
member xs s = any (λ q. q == s) xs

abbrev pub has_refresh : List Guard → Bool
has_refresh [] = false
has_refresh (jwt_auth_guard ∷ gs) = has_refresh gs
has_refresh (jwt_refresh_guard ∷ gs) = true

-- The route that is found is one of the table, for the verb.
pub find_route-passes :
    (q : Endpoint → Bool) (v : Verb) (path : List String) (es : List Endpoint) (e : Endpoint)
    → all q es ≡ true
    → find_route v path es ≡ some e
    → (q e ≡ true) × (same_verb e.route.verb v ≡ true)
unfolding find_route
find_route-passes q v path [] e h f = absurd (cc)
find_route-passes q v path (x ∷ xs) e h f =
    elim (Bool-cases (same_verb x.route.verb v && matches x.path path)) [
      | inl fits ↦ ground arith
      | inr misses ↦ ground (arith, find_route-passes q v path xs e)
    ]

member-subset :
    (xs ys : List String) (s : String)
    → all (member ys) xs ≡ true
    → member xs s ≡ true
    → member ys s ≡ true
member-subset [] ys s h m = absurd (cc)
member-subset (x ∷ xs) ys s h m = ground (arith, eq_iff x s, member-subset xs ys s)

-- The roles of a route are some of these, and there are any.
abbrev pub limits : List String → Option (List String) → Bool
limits allowed none = false
limits allowed (some []) = false
limits allowed (some (r ∷ rs)) = all (member allowed) (r ∷ rs)

limits-member :
    (allowed : List String) (roles : Option (List String)) (role : String)
    → limits allowed roles ≡ true
    → roles_can_activate roles (some (some role)) ≡ true
    → member allowed role ≡ true
unfolding roles_can_activate
limits-member allowed none role h k = absurd (cc)
limits-member allowed (some []) role h k = absurd (cc)
limits-member allowed (some (r ∷ rs)) role h k = member-subset (r ∷ rs) allowed role h k

limits-none :
    (allowed : List String) (roles : Option (List String))
    → limits allowed roles ≡ true
    → roles_can_activate roles none ≡ false
unfolding roles_can_activate
limits-none allowed none h = absurd (cc)
limits-none allowed (some []) h = absurd (cc)
limits-none allowed (some (r ∷ rs)) h = refl

-- The user that the first guard leaves at a route that limits its roles.
pub limits-user :
    (allowed : List String) (roles : Option (List String)) (b : Bool) (req : HttpRequest)
    (u : Option Caller)
    → limits allowed roles ≡ true
    → run_guard b req jwt_auth_guard none ≡ ok u
    → roles_can_activate roles (role_of u) ≡ true
    → (v : AuthUser) × (req.jwt ≡ some v) × (member allowed v.role ≡ true)
limits-user allowed roles true req u l g r = absurd (ground (arith, limits-none allowed roles l))
limits-user allowed roles false req u l g r = elim (Option-cases req.jwt) [
  | inl e ↦ absurd (ground arith)
  | inr (v, e) ↦ (v, e, limits-member allowed roles v.role l (ground arith))
]

module _ (is_uuid : String → Bool) (validates : Endpoint → HttpRequest → Bool) where
  -- A call that is made has passed the guards, and is of the route.
  pub serve-ok :
      (e : Endpoint) (req : HttpRequest) (call : Call)
      → serve is_uuid validates e req ≡ ok call
      → (u : Option Caller) × (v : Option Caller) × (run_guard e.route.is_public req jwt_auth_guard
            none
          ≡ ok u)
        × (roles_can_activate e.roles (role_of u) ≡ true)
        × (run_guards e.route.is_public req e.guards u ≡ ok v)
        × (call ≡ call_of req e v)
  unfolding serve
  serve-ok e req call h =
      elim (Result-cases (run_guard e.route.is_public req jwt_auth_guard none)) [
        | inr (x, g) ↦ absurd (ground arith)
        | inl (u, g) ↦ elim (Bool-cases (roles_can_activate e.roles (role_of u))) [
          | inr r ↦ absurd (ground arith)
          | inl r ↦ elim (Result-cases (run_guards e.route.is_public req e.guards u)) [
            | inr (x, k) ↦ absurd (ground arith)
            | inl (v, k) ↦ elim (Bool-cases (accepts is_uuid e.path req.path && validates e req)) [
              | inr a ↦ absurd (ground arith)
              | inl a ↦ (u, v, g, r, k, ground arith)
            ]
          ]
        ]
      ]

  pub dispatch-ok :
      (req : HttpRequest) (call : Call)
      → dispatch is_uuid validates req ≡ ok call
      → (e : Endpoint) × (find_route req.verb req.path endpoints ≡ some e)
        × (serve is_uuid validates e req ≡ ok call)
  unfolding dispatch
  dispatch-ok req call h = elim (Option-cases (find_route req.verb req.path endpoints)) [
    | inl f ↦ absurd (ground arith)
    | inr (e, f) ↦ (e, f, ground arith)
  ]
