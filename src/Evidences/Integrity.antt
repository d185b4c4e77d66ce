-- ===== src/Evidences/Integrity.antt =====
-- What src/modules/evidences/evidences.service.ts answers on the integrity of what it stored.
use mediavault_backend.Prelude.{
  ℕ, ◌++◌, ◌≤◌, ◌-◌, leb, Result, String, true, false, Option, none, some, [], ◌∷◌, ◌≡◌, ◌↔◌, ◌⊎◌,
  subst, ap, not_found, HttpError, refl, arith, if◌then◌else◌, eqb, ltb, length, ok, err,
  internal_error, suc, Option-cases, Bool-cases, inl, inr, eq_refl,
}
use mediavault_backend.Platform.Runtime.{Bytes}
use mediavault_backend.Gateway.Emissions.{emit_alert}
use mediavault_backend.Streams.Stream.{Stream}
use mediavault_backend.Evidences.Records.{
  Evidence, UploadedFile, CreateEvidenceDto, SnapshotCreateDto, CreateDvrClipDto, IntegrityResult,
  EvidenceResponse,
}
use mediavault_backend.Evidences.Storage.{
  size, same_bytes, absolute_path, relative_path, save_file, verify_integrity,
}
use mediavault_backend.Evidences.State.{
  EvidenceEnv, Evidences, DvrAnswers, max_snapshot_bytes, is_valid_image_buffer, truthy, clip_path,
  begins_with, png_magic, jpeg_magic,
}
use mediavault_backend.Evidences.Service.{
  find_evidence, find_stream, find_event, named_stream, named_event, new_evidence, create,
  verify_evidence,
}
use mediavault_backend.Evidences.Captures.{
  clip_of, snapshot_file, snapshot_request, create_snapshot, create_dvr_clip,
}

Result-cases :
    (r : Result String) → ((e : HttpError) × (r ≡ err e)) ⊎ ((url : String) × (r ≡ ok url))
Result-cases (ok url) = inr (url, refl)
Result-cases (err e) = inl (e, refl)

same_bytes_refl : (b : Bytes) → same_bytes b b ≡ true
same_bytes_refl [] = refl
same_bytes_refl (x ∷ b) = ground (arith, same_bytes_refl b)

-- The test decides the equality of the digests.
same_bytes_sound : (a b : Bytes) → same_bytes a b ≡ true → a ≡ b
same_bytes_sound [] [] h = refl
same_bytes_sound [] (y ∷ b) h = cc
same_bytes_sound (x ∷ a) [] h = cc
same_bytes_sound (x ∷ a) (y ∷ b) h = ground (arith, same_bytes_sound a b)

-- A text of bytes begins with the magic that it was tested for.
begins_with-append : (m b : Bytes) → begins_with m b ≡ true → (rest : Bytes) × (b ≡ m ++ rest)
unfolding begins_with
begins_with-append [] b h = (b, refl)
begins_with-append (m ∷ ms) [] h = absurd (cc)
begins_with-append (m ∷ ms) (b ∷ bs) h =
    let (rest, e) = begins_with-append ms bs (ground arith) in (rest, ground arith)

is_valid_image_buffer-bytes :
    (b : Bytes)
    → is_valid_image_buffer b ≡ true
    → (rest : Bytes) × ((b ≡ 137 ∷ 80 ∷ 78 ∷ 71 ∷ 13 ∷ 10 ∷ 26 ∷ 10 ∷ rest)
        ⊎ (b ≡ 255 ∷ 216 ∷ 255 ∷ rest))
unfolding is_valid_image_buffer
is_valid_image_buffer-bytes b h = elim (Bool-cases (begins_with png_magic b)) [
  | inl png ↦ let (rest, e) = begins_with-append png_magic b png in (rest, inl e)
  | inr other ↦ let (rest, e) = begins_with-append jpeg_magic b (ground arith) in (rest, inr e)
]

module _ (env : EvidenceEnv) where
  open env use {runtime}

  is_valid_iff :
      (now : ℕ) (b : Bytes) (hash : String)
      → ((verify_integrity runtime now b hash).is_valid ≡ true)
        ↔ (runtime.from_hex (runtime.sha256 b) ≡ runtime.from_hex hash)
  unfolding verify_integrity
  is_valid_iff now b hash =
      let computed = runtime.from_hex (runtime.sha256 b) in
      let wanted = runtime.from_hex hash in
      (
        λ h. same_bytes_sound computed wanted (ground arith),
        λ e.
            subst
              (λ w. (if eqb (size computed) (size w) then same_bytes computed w else false) ≡ true)
              e (ground (arith, same_bytes_refl computed)),
      )

  -- The stored file of an evidence as the disk has it.
  abbrev pub content : Evidence → Evidences env → Option Bytes
  content e s = runtime.read_file (absolute_path runtime env.root e.storage_path) s.files

  abbrev pub digest : String → Bytes
  digest hex = runtime.from_hex hex

  -- A verification of an evidence whose file can be read answers that it is intact when and only when
  -- the digest of the file has the bytes of the stored one; it raises one alert if they differ, and
  -- none otherwise.
  pub verify_evidence_lem :
      (now : ℕ) (uuid id uid : String) (s : Evidences env) (e : Evidence) (b : Bytes)
      → find_evidence env id s ≡ some e
      → content e s ≡ some b
      → let (t, answer) = verify_evidence env now uuid id uid s in
        (r : IntegrityResult) × (answer ≡ ok r)
        × ((r.is_valid ≡ true) ↔ (digest (runtime.sha256 b) ≡ digest e.hash_sha256))
        × (length t.sent ≡ (if r.is_valid then length s.sent else suc (length s.sent)))
  unfolding verify_evidence emit_alert
  verify_evidence_lem now uuid id uid s e b found there =
      let r = verify_integrity runtime now b e.hash_sha256 in
      (
        r,
        ground arith,
        is_valid_iff now b e.hash_sha256,
        elim (Bool-cases r.is_valid) [ inl h ↦ ground arith | inr h ↦ ground arith ],
      )

  named_stream-cases :
      (o : Option String) (s : Evidences env)
      → (named_stream env o s ≡ (s, err not_found))
        ⊎ ((v : Option Stream) × (named_stream env o s ≡ (s, ok v)))
  named_stream-cases none s = inr (none, refl)
  named_stream-cases (some id) s = elim (Option-cases (find_stream env id s)) [
    | inl h ↦ inl (ground arith)
    | inr (v, h) ↦ inr (some v, ground arith)
  ]

  named_event-cases :
      (o : Option String) (s : Evidences env)
      → (named_event env o s ≡ (s, err not_found))
        ⊎ ((v : Option String) × (named_event env o s ≡ (s, ok v)))
  named_event-cases none s = inr (none, refl)
  named_event-cases (some id) s = elim (Option-cases (find_event env id s)) [
    | inl h ↦ inl (ground arith)
    | inr (v, h) ↦ inr (some v.id, ground arith)
  ]

  -- A successful upload: the evidence is stored, and its file has the uploaded bytes.
  create_stored :
      (now : ℕ) (id token : String) (file : UploadedFile) (dto : CreateEvidenceDto)
      (uid ip : String) (s t : Evidences env) (answer : EvidenceResponse)
      → create env now id token (some file) dto uid ip s ≡ (t, ok answer)
      → (e : Evidence) × (find_evidence env id t ≡ some e)
        × (content e t ≡ some file.buffer)
        × (e.hash_sha256 ≡ runtime.sha256 file.buffer)
        × (answer.hash_sha256 ≡ runtime.sha256 file.buffer)
  unfolding create save_file
  create_stored now id token file dto uid ip s t answer done =
      elim (named_stream-cases (truthy dto.stream_id) s) [
        | inl h ↦ ground arith
        | inr (v, h) ↦ elim (named_event-cases (truthy dto.event_id) s) [
          | inl g ↦ ground arith
          | inr (event, g) ↦
              let path = relative_path runtime env.root now id dto.evidence_type file in
              let place = absolute_path runtime env.root path in
              elim (Option-cases (runtime.write_file place file.buffer s.files)) [
                | inl w ↦ ground arith
                | inr (f, w) ↦
                    let e =
                      new_evidence env now id dto file
                        (record { path = path; size_bytes = size file.buffer }) v event uid in
                    let left = ap (λ x. x.0) done in
                    (
                      e,
                      ground (arith, env.evidences.find_one-save id e s.evidences, eq_refl id),
                      ground (arith, runtime.read_file-write_file place file.buffer s.files f w),
                      refl,
                      ground arith,
                    )
              ]
        ]
      ]

  -- An upload that succeeds is found intact by a verification, at any later time and by any user, as
  -- long as the row and the file are not touched, and the verification raises no alert.
  pub verify_evidence-create :
      (now later : ℕ) (id token uuid : String) (file : UploadedFile) (dto : CreateEvidenceDto)
      (uid ip checker : String) (s t u : Evidences env) (answer : EvidenceResponse)
      → create env now id token (some file) dto uid ip s ≡ (t, ok answer)
      → u.evidences ≡ t.evidences
      → u.files ≡ t.files
      → let (after, result) = verify_evidence env later uuid id checker u in
        (result
          ≡ ok (record {
            is_valid = true;
            computed_hash = runtime.sha256 file.buffer;
            expected_hash = answer.hash_sha256;
            verified_at = later;
          }))
        × (after.sent ≡ u.sent)
  unfolding verify_evidence verify_integrity emit_alert
  verify_evidence-create now later id token uuid file dto uid ip checker s t u answer done rows
        files =
      let (e, found, stored, hash, told) =
        create_stored now id token file dto uid ip s t answer done in
      let valid = (is_valid_iff later file.buffer (runtime.sha256 file.buffer)).1 refl in
      (
        ground (arith, found, stored, hash, told, valid),
        ground (arith, found, stored, hash, told, valid),
      )

  -- A clip of a stored stream that was recorded while no file was at the clip's path has no file
  -- there, and at any later time, as long as the rows and the files are not touched, its verification
  -- fails as an internal error and changes nothing.
  pub verify_evidence-create_dvr_clip :
      (now later : ℕ) (id token uuid : String) (w : DvrAnswers) (dto : CreateDvrClipDto)
      (uid checker : String) (s t u : Evidences env) (v : Stream) (answer : EvidenceResponse)
      → find_stream env dto.stream_id s ≡ some v
      → runtime.read_file (absolute_path runtime env.root (clip_path id v)) s.files ≡ none
      → create_dvr_clip env now id token w dto uid s ≡ (t, ok answer)
      → u.evidences ≡ t.evidences
      → u.files ≡ t.files
      → (e : Evidence) × (find_evidence env id u ≡ some e)
        × (content e u ≡ none)
        × (verify_evidence env later uuid id checker u ≡ (u, err internal_error))
  unfolding create_dvr_clip verify_evidence
  verify_evidence-create_dvr_clip now later id token uuid w dto uid checker s t u v answer found
        absent done rows files =
      let start = runtime.date_ms dto.start_time in
      let end_ms = runtime.date_ms dto.end_time in
      let answered =
        w.build_dvr_clip_url v.wowza_app_name v.wowza_stream_name start (end_ms - start) in
      elim (Bool-cases w.check_dvr_available) [
        | inr off ↦ ground arith
        | inl on ↦ elim (Bool-cases (leb end_ms start)) [
          | inl early ↦ ground arith
          | inr later' ↦ elim (Result-cases answered) [
            | inl (e, refused) ↦ ground arith
            | inr (url, given) ↦
                let e = clip_of env now id dto v url uid in
                let left = ap (λ x. x.0) done in
                let saved : find_evidence env id u ≡ some e =
                  ground (arith, env.evidences.find_one-save id e s.evidences, eq_refl id) in
                let missing : content e u ≡ none = ground arith in (e, saved, missing, ground arith)
          ]
        ]
      ]

  -- What a successful snapshot stores is the decoded image, with its digest; it has at most
  -- 10485760 bytes, the first of which are 89 50 4E 47 0D 0A 1A 0A or FF D8 FF.
  pub create_snapshot-stored :
      (now : ℕ) (id token : String) (dto : SnapshotCreateDto) (uid : String) (s t : Evidences env)
      (answer : EvidenceResponse)
      → create_snapshot env now id token dto uid s ≡ (t, ok answer)
      → let b = runtime.from_base64 dto.image_base64 in
        (length b ≤ 10485760)
        × ((rest : Bytes) × ((b ≡ 137 ∷ 80 ∷ 78 ∷ 71 ∷ 13 ∷ 10 ∷ 26 ∷ 10 ∷ rest)
              ⊎ (b ≡ 255 ∷ 216 ∷ 255 ∷ rest)))
        × (e : Evidence) × (find_evidence env id t ≡ some e)
        × (content e t ≡ some b)
        × (e.hash_sha256 ≡ runtime.sha256 b)
  unfolding create_snapshot
  create_snapshot-stored now id token dto uid s t answer done =
      let b = runtime.from_base64 dto.image_base64 in
      elim (Bool-cases (ltb max_snapshot_bytes (size b))) [
        | inl big ↦ ground arith
        | inr fits ↦ elim (Bool-cases (is_valid_image_buffer b)) [
          | inl valid ↦
              let (e, found, stored, hash, told) =
                create_stored now id token (snapshot_file env b) (snapshot_request env now dto) uid
                  "" s t answer (ground arith) in
              (ground arith, is_valid_image_buffer-bytes b valid, e, found, stored, hash)
          | inr other ↦ ground arith
        ]
      ]
