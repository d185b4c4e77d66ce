-- ===== src/Wowza/Http.antt =====
-- The HTTP helpers of src/modules/wowza/wowza.service.ts: the requests that it sends, and what it
-- makes of a failure. The exchange itself, and the Base64 encoding, are arguments.
use mediavault_backend.Prelude.{
  ℕ, String, Bool, true, false, Option, none, some, [], ◌∷◌, ◌||◌, ◌==◌, ◌≡◌, ◌↔◌, refl, Map,
  decimal, if◌then◌else◌, eqb, arith, Option-cases, Bool-cases, inl, inr,
}
use mediavault_backend.Wowza.{ServerConfig, ◌<>◌}

-- What `catch` gets: an error of axios has a code, an answer with its status and text, or neither.
pub record Failure : Type 0 where
  pub is_axios_error : Bool
  pub code : Option String
  pub response : Option (ℕ × String)

-- `ServiceUnavailableException`, or `HttpException` with the status and the text.
pub data WowzaException : Type 0 where
  unavailable : WowzaException
  http_exception : ℕ → String → WowzaException

pub data Outcome {ℓ} (A : Type ℓ) : Type ℓ where
  done : A → Outcome A
  failed : WowzaException → Outcome A

abbrev pub is_unreachable : Option String → Bool
is_unreachable none = false
is_unreachable (some c) = c == "ECONNREFUSED" || c == "ETIMEDOUT" || c == "ENOTFOUND"

-- `data || …`.
abbrev pub text_or : String → String → String
text_or s d = if s == "" then d else s

abbrev pub answered_with : Option (ℕ × String) → String → WowzaException
answered_with none context = unavailable
answered_with (some (status, text)) context =
    http_exception status (text_or text ("Error de Wowza: " <> context))

unfoldable pub handle_axios_error : Failure → String → WowzaException
handle_axios_error f context =
    if f.is_axios_error
    then (if is_unreachable f.code then unavailable else answered_with f.response context)
    else unavailable

abbrev pub build_headers : (String → String) → ServerConfig → Map String
build_headers base64 s =
    ("Accept", "application/json")
    ∷ ("Content-Type", "application/json")
    ∷ ("Authorization", "Basic " <> base64 (s.api_user <> ":" <> s.api_password))
    ∷ []

-- The URL and the headers of a request.
pub record HttpCall : Type 0 where
  pub url : String
  pub headers : Map String

abbrev pub call_of : (String → String) → String → ServerConfig → HttpCall
call_of base64 path s = record {
  url = "http://" <> s.ip <> ":" <> decimal s.port_api <> "/v2" <> path;
  headers = build_headers base64 s;
}

-- What the server answers a request.
pub data Exchange {ℓ} (A : Type ℓ) : Type ℓ where
  answer : A → Exchange A
  failure : Failure → Exchange A

abbrev pub outcome_of {ℓ} : {A : Type ℓ} → String → Exchange A → Outcome A
outcome_of context (answer a) = done a
outcome_of context (failure f) = failed (handle_axios_error f context)

module _ (base64 : String → String) where
  unfoldable pub wowza_get {ℓ} :
      {A : Type ℓ} → (HttpCall → Exchange A) → String → ServerConfig → Outcome A
  wowza_get send path s = outcome_of ("GET " <> path) (send (call_of base64 path s))

  unfoldable pub wowza_put :
      (HttpCall → Exchange (Unit {0})) → String → ServerConfig → Outcome (Unit {0})
  wowza_put send path s = outcome_of ("PUT " <> path) (send (call_of base64 path s))

  abbrev pub applications_path : String
  applications_path = "/servers/_defaultServer_/vhosts/_defaultVHost_/applications"

  unfoldable pub get_application {ℓ} :
      {A : Type ℓ} → (HttpCall → Exchange A) → String → ServerConfig → Outcome A
  unfolding wowza_get
  get_application send app s = wowza_get send (applications_path <> "/" <> app) s

  abbrev pub stream_path : String → String → String
  stream_path app stream =
      applications_path <> "/" <> app <> "/instances/_definst_/incomingstreams/" <> stream

  -- `err instanceof HttpException && err.getStatus() === 404`; the other exception has status 503.
  abbrev pub or_absent {ℓ} : {A : Type ℓ} → Outcome A → Outcome (Option A)
  or_absent (done a) = done (some a)
  or_absent (failed unavailable) = failed unavailable
  or_absent (failed (http_exception status text)) =
      if eqb status 404 then done none else failed (http_exception status text)

  unfoldable pub get_incoming_stream {ℓ} :
      {A : Type ℓ} → (HttpCall → Exchange A) → String → String → ServerConfig → Outcome (Option A)
  unfolding wowza_get
  get_incoming_stream send app stream s = or_absent (wowza_get send (stream_path app stream) s)

  absent_iff {ℓ} :
      {A : Type ℓ} (f : Failure) (context : String) (x : WowzaException)
      → handle_axios_error f context ≡ x
      → (or_absent {A = A} (failed x) ≡ done none) ↔ (
          (text : String) × (f.is_axios_error ≡ true)
          × (is_unreachable f.code ≡ false)
          × (f.response ≡ some (404, text)))
  unfolding handle_axios_error
  absent_iff f context unavailable e = (λ h. absurd (cc), λ (text, a, u, r). absurd (ground arith))
  absent_iff f context (http_exception status message) e = (
    λ h. elim (Bool-cases f.is_axios_error) [
      | inr a ↦ absurd (ground arith)
      | inl a ↦ elim (Bool-cases (is_unreachable f.code)) [
        | inl u ↦ absurd (ground arith)
        | inr u ↦ elim (Option-cases f.response) [
          | inl r ↦ absurd (ground arith)
          | inr ((n, text), r) ↦ (text, a, u, ground arith)
        ]
      ]
    ],
    λ (text, a, u, r). ground arith,
  )

  -- A stream counts as absent when and only when the server was reached and answered 404; a server
  -- that cannot be reached never makes a stream absent.
  get_incoming_stream-absent {ℓ} :
      {A : Type ℓ} (send : HttpCall → Exchange A) (app stream : String) (s : ServerConfig)
      (f : Failure)
      → send (call_of base64 (stream_path app stream) s) ≡ failure f
      → (get_incoming_stream send app stream s ≡ done none) ↔ (
          (text : String) × (f.is_axios_error ≡ true)
          × (is_unreachable f.code ≡ false)
          × (f.response ≡ some (404, text)))
  unfolding get_incoming_stream wowza_get handle_axios_error
  get_incoming_stream-absent send app stream s f e = rw e (
      absent_iff f ("GET " <> stream_path app stream)
        (handle_axios_error f ("GET " <> stream_path app stream)) refl)
