-- ===== src/Http/Reachable.antt =====
-- No route of src/app.module.ts is shadowed by an earlier one, and what a request to a route meets.
use mediavault_backend.Prelude.{
  bad_request, ℕ, suc, String, Bool, true, false, Option, none, some, List, [], ◌∷◌, ◌&&◌, ◌||◌,
  ◌==◌, not, if◌then◌else◌, all, ltb, Result, ok, err, unauthorized, forbidden,
}
use mediavault_backend.Auth.Guards.{AuthUser}
use mediavault_backend.Http.Request.{HttpRequest}
use mediavault_backend.Http.Route.{Segment, text, uuid}
use mediavault_backend.Http.Router.{Endpoint, same_verb}
use mediavault_backend.Http.Dispatch.{caller_of, Call, call_of}
use mediavault_backend.Http.Guarding.{member, has_refresh}

abbrev pub text_length : String → ℕ
text_length String.[] = 0
text_length (String.◌∷◌ c s) = suc (text_length s)

-- No text is an instance of both, if the second's parameter is accepted.
abbrev apart_segment : Segment → Segment → Bool
apart_segment (text s) (text t) = not (s == t)
apart_segment (text s) (uuid name) = ltb (text_length s) 36
apart_segment _ _ = false

apart : List Segment → List Segment → Bool
apart [] [] = false
apart [] (q ∷ qs) = true
apart (p ∷ ps) [] = true
apart (p ∷ ps) (q ∷ qs) = apart_segment p q || apart ps qs

separate : Endpoint → Endpoint → Bool
unfolding apart
separate e f = not (same_verb e.route.verb f.route.verb) || apart e.path f.path

no_shadow : List Endpoint → Bool
unfolding separate
no_shadow [] = true
no_shadow (e ∷ es) = all (separate e) es && no_shadow es

-- Who may call a route: all users if it names no roles.
abbrev pub permits : Option (List String) → String → Bool
permits none role = true
permits (some []) role = true
permits (some (r ∷ rs)) role = member (r ∷ rs) role

-- What a user with a token gets from a route, and what anybody else does.
abbrev pub granted : Bool → Endpoint → HttpRequest → Option AuthUser → Result Call
granted valid e req none = err unauthorized
granted valid e req (some w) =
    if permits e.roles w.role
    then (if valid then ok (call_of req e (some (caller_of w))) else err bad_request)
    else err forbidden

-- Only a public route has the refresh guard.
is_ordinary : Endpoint → Bool
is_ordinary e = e.route.is_public || not (has_refresh e.guards)
