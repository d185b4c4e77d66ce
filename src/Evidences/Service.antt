-- ===== src/Evidences/Service.antt =====
-- src/modules/evidences/evidences.service.ts. The time, the id of a new row, the random part of a
-- download token, the id of an alert and Wowza's answers are arguments.
use Prim.Native.String
use mediavault_backend.Prelude.{
  decimal, Result, ℕ, String, Bool, false, not, ◌&&◌, Option, none, some, [], ◌∷◌, ◌++◌, ◌==◌,
  if◌then◌else◌, Map, Action, Result, ok, err, ◌>>=◌, ◌>>◌, pure, throw_if, state, modify, or_throw,
  not_found, bad_request, forbidden, internal_error,
}
use mediavault_backend.Platform.Repository.{by_key}
use mediavault_backend.Platform.Runtime.{Bytes}
use mediavault_backend.Audit.{Value, text, flag, log_action}
use mediavault_backend.Gateway.Emissions.{critical, stream, evidence, emit_alert, send}
use mediavault_backend.Backend.{User, user_id}
use mediavault_backend.Streams.Stream.{Stream, stream_key}
use mediavault_backend.Events.Records.{Event, event_key}
use mediavault_backend.Evidences.Records.{
  Evidence, evidence_key, EvidenceType, type_word, UploadedFile, CreateEvidenceDto,
  EvidenceResponse, IntegrityResult, Download,
}
use mediavault_backend.Evidences.Storage.{
  SavedFile, absolute_path, save_file, verify_integrity, generate_download_token,
  resolve_download_token, invalidate_download_token,
}
use mediavault_backend.Evidences.State.{
  EvidenceEnv, Evidences, truthy, duration_of, text_or_absent, id_of, uploader_view,
  to_response_dto,
}

module _ (env : EvidenceEnv) where
  open env use {runtime}

  abbrev pub find_evidence : String → Evidences env → Option Evidence
  find_evidence id s = env.evidences.find_one (by_key evidence_key id) s.evidences

  abbrev pub find_stream : String → Evidences env → Option Stream
  find_stream id s = env.streams.find_one (by_key stream_key id) s.streams

  abbrev pub find_event : String → Evidences env → Option Event
  find_event id s = env.events.find_one (by_key event_key id) s.events

  -- A stream or an event that the request names must be there.
  abbrev pub named_stream : Option String → Action (Evidences env) (Option Stream)
  named_stream none = pure none
  named_stream (some id) = do s ← state; v ← or_throw (find_stream id s) not_found; pure (some v)

  abbrev pub named_event : Option String → Action (Evidences env) (Option String)
  named_event none = pure none
  named_event (some id) = do s ← state; e ← or_throw (find_event id s) not_found; pure (some e.id)

  -- `writeFile` that rejects is an internal error.
  abbrev pub stored_file :
      ℕ → UploadedFile → String → EvidenceType → Action (Evidences env) SavedFile
  stored_file now file id t s = elim (save_file runtime env.root now file id t s.files) [
    | none ↦ (s, err internal_error)
    | some (f, saved) ↦ (record s { files = f }, ok saved)
  ]

  abbrev pub save_evidence : Evidence → Evidences env → Evidences env
  save_evidence e s = record s { evidences = env.evidences.save e s.evidences }

  abbrev pub log_evidence :
      String
      → String
      → Option String
      → Option String
      → Option (Map Value)
      → Evidences env
      → Evidences env
  log_evidence action id uid ip meta s = record s {
    audit = log_action action "Evidence" (some id) uid ip meta s.audit;
  }

  abbrev pub announce : Evidence → Evidences env → Evidences env
  announce e s = record s {
    sent = send "all" "evidence:created" (evidence e.id e.hash_sha256) s.sent;
  }

  abbrev pub with_token : ℕ → String → String → String → Evidences env → Evidences env
  with_token now token id uid s = record s {
    redis = generate_download_token env.redis runtime now token id uid s.redis;
  }

  abbrev pub new_evidence :
      ℕ
      → String
      → CreateEvidenceDto
      → UploadedFile
      → SavedFile
      → Option Stream
      → Option String
      → String
      → Evidence
  new_evidence now id dto file saved v event uid = record {
    id = id;
    stream_id = id_of v;
    event_id = event;
    evidence_type = dto.evidence_type;
    storage_path = saved.path;
    hash_sha256 = runtime.sha256 file.buffer;
    file_size_bytes = saved.size_bytes;
    duration_seconds = duration_of dto.metadata;
    metadata = dto.metadata;
    recorded_at = dto.recorded_at;
    uploaded_by = uid;
    created_at = now;
  }

  unfoldable pub create :
      ℕ
      → String
      → String
      → Option UploadedFile
      → CreateEvidenceDto
      → String
      → String
      → Action (Evidences env) EvidenceResponse
  create now id token given dto uid ip = do
    file ← or_throw given bad_request
    v ← named_stream (truthy dto.stream_id)
    event ← named_event (truthy dto.event_id)
    saved ← stored_file now file id dto.evidence_type
    let e = new_evidence now id dto file saved v event uid
    modify (save_evidence e)
    modify (
        log_evidence "EVIDENCE_CREATED" id (some uid) (some ip) (
          some (
            ("type", text (type_word dto.evidence_type)) ∷ text_or_absent "streamId" dto.stream_id
            ++ ("hash", text e.hash_sha256) ∷ [])))
    modify (announce e)
    modify (with_token now token id uid)
    pure (to_response_dto e v event (some (uid, "")) (some token))

  abbrev pub answer_of {ℓ} : {A : Type ℓ} → Result A → Action (Evidences env) A
  answer_of r s = (s, r)

  abbrev pub loaded_stream : Evidence → Evidences env → Option Stream
  loaded_stream e s = elim e.stream_id [ none ↦ none | some id ↦ find_stream id s ]

  abbrev pub event_key_of : Option Event → Option String
  event_key_of none = none
  event_key_of (some v) = some v.id

  abbrev pub loaded_event : Evidence → Evidences env → Option String
  loaded_event e s = elim e.event_id [ none ↦ none | some id ↦ event_key_of (find_event id s) ]

  abbrev pub uploader : Evidence → Evidences env → Option User
  uploader e s = env.users.find_one (by_key user_id e.uploaded_by) s.users

  -- `evidence.uploadedBy?.id !== userId`.
  abbrev pub is_uploader : String → Option User → Bool
  is_uploader uid none = false
  is_uploader uid (some u) = u.id == uid

  unfoldable pub find_one :
      ℕ → String → String → String → String → Action (Evidences env) EvidenceResponse
  find_one now token id uid role = do
    s ← state
    e ← or_throw (find_evidence id s) not_found
    throw_if (role == "viewer" && not (is_uploader uid (uploader e s))) forbidden
    modify (log_evidence "EVIDENCE_VIEWED" id (some uid) none none)
    modify (with_token now token id uid)
    pure (
        to_response_dto e (loaded_stream e s) (loaded_event e s) (uploader_view (uploader e s))
          (some token))

  abbrev pub raise_compromised : ℕ → String → String → Bool → Evidences env → Evidences env
  raise_compromised now uuid id valid s = if valid then s else record s {
    sent =
        emit_alert
          (record {
            id = uuid;
            level = critical;
            category = stream;
            title = "Integridad comprometida";
            message =
                String.◌++◌ "Evidencia " (String.◌++◌ id " no pasa verificación de integridad");
            stream_id = none;
            timestamp = now;
          })
          s.sent;
  }

  -- The service's method of that name; a file that cannot be read is an internal error.
  unfoldable pub verify_evidence :
      ℕ → String → String → String → Action (Evidences env) IntegrityResult
  verify_evidence now uuid id uid = do
    s ← state
    e ← or_throw (find_evidence id s) not_found
    b ←
        or_throw (runtime.read_file (absolute_path runtime env.root e.storage_path) s.files)
          internal_error
    let r = verify_integrity runtime now b e.hash_sha256
    modify (
        log_evidence "EVIDENCE_INTEGRITY_VERIFIED" id (some uid) none
          (some (("isValid", flag r.is_valid) ∷ ("computedHash", text r.computed_hash) ∷ [])))
    modify (raise_compromised now uuid id r.is_valid)
    pure r

  -- Given the archive that the export service makes, or its exception.
  unfoldable pub export_evidence :
      ℕ → (Evidence → Result Bytes) → String → String → Action (Evidences env) (Bytes × String)
  export_evidence now archive id uid = do
    s ← state
    e ← or_throw (find_evidence id s) not_found
    b ← answer_of (archive e)
    modify (log_evidence "EVIDENCE_EXPORTED" id (some uid) none none)
    let name =
        String.◌++◌ "evidence-"
          (String.◌++◌ id (String.◌++◌ "-" (String.◌++◌ (decimal now) ".zip")))
    pure (b, name)

  unfoldable pub prepare_download : ℕ → String → Option String → Action (Evidences env) Download
  prepare_download now token ip = do
    s ← state
    (id, uid) ← or_throw (resolve_download_token env.redis runtime now token s.redis) forbidden
    e ← or_throw (find_evidence id s) not_found
    modify (λ s. record s { redis = invalidate_download_token env.redis runtime token s.redis })
    modify
        (log_evidence "EVIDENCE_DOWNLOADED" id (some uid) ip (some (("evidenceId", text id) ∷ [])))
    pure (record {
      absolute_path = absolute_path runtime env.root e.storage_path;
      hash_sha256 = e.hash_sha256;
      storage_path = e.storage_path;
      evidence_id = id;
    })

  unfoldable pub remove : String → String → Action (Evidences env) (Unit {0})
  remove id uid = do
    s ← state
    e ← or_throw (find_evidence id s) not_found
    modify (λ s. record s { evidences = env.evidences.delete (by_key evidence_key id) s.evidences })
    modify (log_evidence "EVIDENCE_DELETED" id (some uid) none none)
