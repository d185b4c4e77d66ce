-- ===== src/Evidences/Captures.antt =====
-- `createSnapshot` and `createDvrClip` of src/modules/evidences/evidences.service.ts.
use mediavault_backend.Prelude.{
  ℕ, ◌+◌, ◌-◌, ◌/◌, String, not, none, some, [], ◌∷◌, leb, ltb, Action, ◌>>=◌, ◌>>◌, pure, throw_if,
  state, modify, or_throw, not_found, bad_request,
}
use mediavault_backend.Platform.Runtime.{Bytes}
use mediavault_backend.Audit.{text, number}
use mediavault_backend.Streams.Stream.{Stream}
use mediavault_backend.Evidences.Records.{
  Evidence, snapshot, dvr_clip, UploadedFile, CreateEvidenceDto, SnapshotCreateDto,
  CreateDvrClipDto, EvidenceResponse,
}
use mediavault_backend.Evidences.Storage.{size}
use mediavault_backend.Evidences.State.{
  max_snapshot_bytes, is_valid_image_buffer, EvidenceEnv, Evidences, DvrAnswers, truthy,
  text_or_absent, to_response_dto, clip_path,
}
use mediavault_backend.Evidences.Service.{
  answer_of, create, find_stream, save_evidence, log_evidence, announce, with_token,
}

module _ (env : EvidenceEnv) where
  open env use {runtime}

  -- `fakeFile`.
  abbrev pub snapshot_file : Bytes → UploadedFile
  snapshot_file b = record { mimetype = "image/jpeg"; buffer = b }

  abbrev pub snapshot_request : ℕ → SnapshotCreateDto → CreateEvidenceDto
  snapshot_request now dto = record {
    stream_id = some dto.stream_id;
    event_id = none;
    evidence_type = snapshot;
    recorded_at = some now;
    metadata = dto.metadata;
  }

  unfoldable pub create_snapshot :
      ℕ → String → String → SnapshotCreateDto → String → Action (Evidences env) EvidenceResponse
  create_snapshot now id token dto uid = do
    let b = runtime.from_base64 dto.image_base64
    throw_if (ltb max_snapshot_bytes (size b)) bad_request
    throw_if (not (is_valid_image_buffer b)) bad_request
    create env now id token (some (snapshot_file b)) (snapshot_request now dto) uid ""

  abbrev pub clip_of : ℕ → String → CreateDvrClipDto → Stream → String → String → Evidence
  clip_of now id dto v url uid =
      let ms = runtime.date_ms dto.end_time - runtime.date_ms dto.start_time in
      record {
        id = id;
        stream_id = some v.id;
        event_id = none;
        evidence_type = dvr_clip;
        storage_path = clip_path id v;
        hash_sha256 = runtime.sha256 (runtime.utf8 url);
        file_size_bytes = 0;
        duration_seconds = some ((ms + 500) / 1000);
        metadata = some (
            ("dvrClipUrl", text url)
            ∷ ("startTime", text dto.start_time)
            ∷ ("endTime", text dto.end_time)
            ∷ ("appName", text v.wowza_app_name)
            ∷ ("streamName", text v.wowza_stream_name)
            ∷ text_or_absent "description" (truthy dto.description));
        recorded_at = some (runtime.date_ms dto.start_time);
        uploaded_by = uid;
        created_at = now;
      }

  unfoldable pub create_dvr_clip :
      ℕ
      → String
      → String
      → DvrAnswers
      → CreateDvrClipDto
      → String
      → Action (Evidences env) EvidenceResponse
  create_dvr_clip now id token w dto uid = do
    s ← state
    v ← or_throw (find_stream env dto.stream_id s) not_found
    throw_if (not w.check_dvr_available) bad_request
    let start = runtime.date_ms dto.start_time
    let end_ms = runtime.date_ms dto.end_time
    throw_if (leb end_ms start) bad_request
    url ←
        answer_of env
          (w.build_dvr_clip_url v.wowza_app_name v.wowza_stream_name start (end_ms - start))
    let e = clip_of now id dto v url uid
    modify (save_evidence env e)
    modify (
        log_evidence env "DVR_CLIP_CREATED" id (some uid) none (
          some (
            ("streamId", text dto.stream_id)
            ∷ ("startTime", text dto.start_time)
            ∷ ("endTime", text dto.end_time)
            ∷ ("durationSeconds", number ((end_ms - start + 500) / 1000))
            ∷ ("dvrClipUrl", text url)
            ∷ [])))
    modify (announce env e)
    modify (with_token env now token id uid)
    pure (to_response_dto e (some v) none (some (uid, "")) (some token))
