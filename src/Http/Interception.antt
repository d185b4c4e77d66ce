-- ===== src/Http/Interception.antt =====
-- What surrounds a method: src/common/interceptors/audit.interceptor.ts, which writes the audit log
-- after a method has answered, and src/common/filters/global-exception.filter.ts. What the method
-- itself answers is an argument.
use mediavault_backend.Prelude.{
  ℕ, ◌≤◌, ◌<◌, String, Bool, true, false, Option, none, some, List, [], ◌∷◌, ◌≡◌, get_or, Map,
  Result, ok, err, HttpError, bad_request, unauthorized, forbidden, not_found, conflict,
  service_unavailable, ws_exception, token_error, internal_error, arith, Result-cases, Option-cases,
  ap, ◌∙◌, not, is_some, ◌||◌, Action, refl, sym, subst, ◌⊎◌, all, leb, ◌&&◌,
}
use mediavault_backend.Prelude as Prelude
use mediavault_backend.Audit.{AuditLog, CreateAuditEntry, log}
use mediavault_backend.Auth.Guards.{AuthUser}
use mediavault_backend.Http.Guarding.{has_refresh}
use mediavault_backend.Http.OwnAccount.{own_user}
use mediavault_backend.Http.Request.{HttpRequest, audit_ip}
use mediavault_backend.Http.Route.{AuditMetadata}
use mediavault_backend.Http.Router.{Endpoint, endpoints}
use mediavault_backend.Http.Access.{dispatch-passes}
use mediavault_backend.Http.Dispatch.{Caller, Call, caller_of, dispatch}

-- The status of an `HttpException`; no other exception has one.
abbrev pub get_status : HttpError → Option ℕ
get_status bad_request = some 400
get_status unauthorized = some 401
get_status forbidden = some 403
get_status not_found = some 404
get_status conflict = some 409
get_status service_unavailable = some 503
get_status ws_exception = none
get_status token_error = none
get_status internal_error = none

-- The exception's own response, or a text.
pub data Message : Type 0 where
  response_of : HttpError → Message
  text : String → Message

pub record ErrorAnswer : Type 0 where
  pub status_code : ℕ
  pub message : Message

abbrev pub message_of : Option ℕ → HttpError → Message
message_of none x = text "Internal server error"
message_of (some n) x = response_of x

-- `GlobalExceptionFilter.catch`.
unfoldable pub catch_exception : HttpError → ErrorAnswer
catch_exception x = record {
  status_code = get_or (get_status x) 500;
  message = message_of (get_status x) x;
}

abbrev pub caller_id : Option Caller → Option String
caller_id none = none
caller_id (some u) = some u.user_id

-- `params['id'] ?? body?.['id']`.
abbrev pub or_body : Option String → Option String → Option String
or_body none o = o
or_body (some s) o = some s

abbrev pub entry_of : HttpRequest → Call → AuditMetadata → CreateAuditEntry
entry_of req c m = record {
  action = m.action;
  entity_type = m.entity_type;
  entity_id = or_body (Prelude.get "id" c.params) (Prelude.get "id" req.body);
  user_id = caller_id c.user;
  ip_address = audit_ip req;
  metadata = none;
}

-- `if (!meta) return next.handle()`.
abbrev pub logged : HttpRequest → Call → Option AuditMetadata → List AuditLog → List AuditLog
logged req c none entries = entries
logged req c (some m) entries = log (entry_of req c m) entries

-- `AuditInterceptor.intercept`, for what the method answers.
unfoldable pub intercept {ℓ} :
    {A : Type ℓ} → HttpRequest → Call → Result A → List AuditLog → List AuditLog
intercept req c (err x) entries = entries
intercept req c (ok a) entries = logged req c c.endpoint.route.audit entries

-- What the client gets: the status of the method, or what the filter makes of an exception.
pub data Answer {ℓ} (A : Type ℓ) : Type ℓ where
  success : ℕ → A → Answer A
  refusal : ErrorAnswer → Answer A

abbrev pub answer_of {ℓ} : {A : Type ℓ} → ℕ → Result A → Answer A
answer_of code (ok a) = success code a
answer_of code (err x) = refusal (catch_exception x)

-- The way of a request through the guards, the method, the interceptor and the filter. The method
-- writes to the audit log itself; what else it changes is its own.
unfoldable pub handle {ℓ} :
    {A : Type ℓ}
    → (String → Bool)
    → (Endpoint → HttpRequest → Bool)
    → (Call → Action (List AuditLog) A)
    → HttpRequest
    → List AuditLog
    → List AuditLog × Answer A
unfolding intercept catch_exception
handle is_uuid validates method req entries = elim (dispatch is_uuid validates req) [
  | err x ↦ (entries, refusal (catch_exception x))
  | ok c ↦
      let (left, result) = method c entries in
      (intercept req c result left, answer_of c.endpoint.route.code result)
]

-- A route that is audited has the user of an access token.
is_accountable : Endpoint → Bool
is_accountable e =
    not (is_some e.route.audit) || not e.route.is_public && not (has_refresh e.guards)

abbrev has_ok_code : Endpoint → Bool
has_ok_code e = leb 200 e.route.code && leb e.route.code 204

-- What every route of the table has.
is_sound : Endpoint → Bool
unfolding is_accountable
is_sound e = has_ok_code e && is_accountable e

endpoints_sound : all is_sound endpoints ≡ true
unfolding is_sound endpoints
endpoints_sound = refl

catch_exception-status : (x : HttpError) → 400 ≤ (catch_exception x).status_code
unfolding catch_exception
catch_exception-status bad_request = omega arith
catch_exception-status unauthorized = omega arith
catch_exception-status forbidden = omega arith
catch_exception-status not_found = omega arith
catch_exception-status conflict = omega arith
catch_exception-status service_unavailable = omega arith
catch_exception-status ws_exception = omega arith
catch_exception-status token_error = omega arith
catch_exception-status internal_error = omega arith

-- For an audited route whose method succeeds, the request had an access token, the answer has a
-- status from 200 to 204, and on top of what the method wrote to the audit log there is one entry,
-- with the action of the route and the user of the token.
pub handle-accountable {ℓ} :
    {A : Type ℓ} (is_uuid : String → Bool) (validates : Endpoint → HttpRequest → Bool)
    (method : Call → Action (List AuditLog) A) (req : HttpRequest) (entries left : List AuditLog)
    (c : Call) (a : A) (m : AuditMetadata)
    → dispatch is_uuid validates req ≡ ok c
    → c.endpoint.route.audit ≡ some m
    → method c entries ≡ (left, ok a)
    → (v : AuthUser) × (entry : AuditLog) × (req.jwt ≡ some v)
      × (handle is_uuid validates method req entries
          ≡ (entry ∷ left, success c.endpoint.route.code a))
      × (entry.action ≡ m.action)
      × (entry.user_id ≡ some v.user_id)
      × (200 ≤ c.endpoint.route.code)
      × (c.endpoint.route.code ≤ 204)
unfolding handle intercept is_sound is_accountable
handle-accountable is_uuid validates method req entries left c a m d audit run =
    let (e, p, w, u, v, g, r, k, same) =
      dispatch-passes is_uuid validates is_sound req c endpoints_sound d in
    let known = ap (λ (x : Call). x.endpoint.route.audit) same in
    let p' : is_sound c.endpoint ≡ true =
      subst (λ (x : Call). is_sound x.endpoint ≡ true) (sym same) p in
    let audited : e.route.audit ≡ some m = sym known ∙ audit in
    let (token, j, user) =
      own_user e.route.is_public e.guards req u v (ground arith) (ground arith) g k in
    let named : c.user ≡ some (caller_of token) = ap (λ (x : Call). x.user) same ∙ user in
    (
      token,
      record {
        action = m.action;
        entity_type = get_or m.entity_type "";
        entity_id = or_body (Prelude.get "id" c.params) (Prelude.get "id" req.body);
        user_id = caller_id c.user;
        ip_address = audit_ip req;
        metadata = [];
      },
      j,
      ground arith,
      refl,
      ap caller_id named,
      ground arith,
      ground arith,
    )
