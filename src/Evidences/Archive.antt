-- ===== src/Evidences/Archive.antt =====
-- What src/modules/evidences/evidences-export.service.ts puts into its archives, by
-- src/modules/evidences/evidences-integrity.service.ts. `archiver` packs the entries, and
-- `path.extname` is an argument.
use mathlib.Core.List.{Memᴰ}
use mediavault_backend.Prelude.{
  ℕ, ◌≤◌, String, Bool, true, false, Option, none, some, List, [], ◌∷◌, ◌++◌, ◌==◌, ◌≡◌,
  if◌then◌else◌, get_or, ltb, length, decimal, Map, Result, ok, err, bad_request, refl, arith,
}
use mediavault_backend.Prelude.Trim.{trim_start, trim_end}
use mediavault_backend.Prelude as Prelude
use mediavault_backend.Platform.Runtime.{Bytes}
use mediavault_backend.Audit.{Value}
use mediavault_backend.Audit.Csv.{join, ◌<>◌}
use mediavault_backend.Audit.Listing.{AuditEntity}
use mediavault_backend.Backend.{User}
use mediavault_backend.Streams.Stream.{Stream}
use mediavault_backend.Events.Records.{Event}
use mediavault_backend.Evidences.Records.{Evidence, EvidenceType, IntegrityResult}
use mediavault_backend.Evidences.Storage.{absolute_path}
use mediavault_backend.Evidences.State.{EvidenceEnv, Evidences, uploader_view}
use mediavault_backend.Evidences.Service.{
  find_evidence, find_event, loaded_stream, uploader, verify_evidence,
}
use mediavault_backend.Evidences.Integrity.{content, digest, verify_evidence_lem}

pub record CustodyRecord : Type 0 where
  pub evidence_id : String
  pub evidence_type : EvidenceType
  pub recorded_at : Option String
  pub captured_by_id : String
  pub captured_by_name : String
  pub captured_by_role : Option String
  -- The id, the name and the Wowza application.
  pub stream : Option (String × String × String)
  -- The id and the title.
  pub event : Option (String × String)
  pub path : String
  pub size_bytes : ℕ
  pub sha256 : String
  pub algorithm : String
  pub platform : String
  pub platform_version : String
  pub generated_at : String

-- `metadata.json`.
pub record MetadataRecord : Type 0 where
  pub id : String
  pub evidence_type : EvidenceType
  pub recorded_at : Option String
  pub created_at : String
  pub stream : Option (String × String)
  pub event : Option (String × String)
  pub uploaded_by : Option (String × String)
  pub metadata : Option (Map Value)
  pub file_size_bytes : ℕ
  pub duration_seconds : Option ℕ

-- A file of the disk, an object as JSON, or a text.
pub data Content : Type 0 where
  disk : String → Content
  metadata_json : MetadataRecord → Content
  custody_json : CustodyRecord → Content
  trail_json : List AuditEntity → Content
  plain : String → Content

pub record Entry : Type 0 where
  pub name : String
  pub content : Content

abbrev pub or_bin : String → String
or_bin ext = if ext == "" then ".bin" else ext

abbrev pub stream_view : Option Stream → Option (String × String)
stream_view none = none
stream_view (some v) = some (v.id, v.name)

abbrev pub stream_custody : Option Stream → Option (String × String × String)
stream_custody none = none
stream_custody (some v) = some (v.id, v.name, v.wowza_app_name)

abbrev pub event_view : Option Event → Option (String × String)
event_view none = none
event_view (some v) = some (v.id, v.title)

abbrev pub user_id_or_empty : Option User → String
user_id_or_empty none = ""
user_id_or_empty (some u) = u.id

abbrev pub user_name_or_empty : Option User → String
user_name_or_empty none = ""
user_name_or_empty (some u) = trim_end (trim_start (u.first_name <> " " <> u.last_name))

abbrev pub role_name : Option User → Option String
role_name none = none
role_name (some u) = some u.role.name

module _ (env : EvidenceEnv) (extname : String → String) where
  open env use {runtime}

  abbrev pub loaded_event_row : Evidence → Evidences env → Option Event
  loaded_event_row e s = elim e.event_id [ none ↦ none | some id ↦ find_event env id s ]

  abbrev pub iso : Option ℕ → Option String
  iso none = none
  iso (some t) = some (runtime.to_iso_string t)

  unfoldable pub generate_custody_record : ℕ → Evidence → Evidences env → CustodyRecord
  generate_custody_record now e s = record {
    evidence_id = e.id;
    evidence_type = e.evidence_type;
    recorded_at = iso e.recorded_at;
    captured_by_id = user_id_or_empty (uploader env e s);
    captured_by_name = user_name_or_empty (uploader env e s);
    captured_by_role = role_name (uploader env e s);
    stream = stream_custody (loaded_stream env e s);
    event = event_view (loaded_event_row e s);
    path = e.storage_path;
    size_bytes = e.file_size_bytes;
    sha256 = e.hash_sha256;
    algorithm = "SHA-256";
    platform = "MediaVault";
    platform_version = "1.0.0";
    generated_at = runtime.to_iso_string now;
  }

  abbrev pub metadata_of : Evidence → Evidences env → MetadataRecord
  metadata_of e s = record {
    id = e.id;
    evidence_type = e.evidence_type;
    recorded_at = iso e.recorded_at;
    created_at = runtime.to_iso_string e.created_at;
    stream = stream_view (loaded_stream env e s);
    event = event_view (loaded_event_row e s);
    uploaded_by = uploader_view (uploader env e s);
    metadata = e.metadata;
    file_size_bytes = e.file_size_bytes;
    duration_seconds = e.duration_seconds;
  }

  abbrev pub media_filename : Evidence → String
  media_filename e = e.id <> or_bin (extname e.storage_path)

  abbrev pub integrity_txt : ℕ → Evidence → String
  integrity_txt now e = join "\n" (
      "Algorithm: SHA-256"
      ∷ ("Hash: " <> e.hash_sha256)
      ∷ ("File: media/" <> media_filename e)
      ∷ ("Verification command: sha256sum media/" <> media_filename e)
      ∷ ("Generated: " <> runtime.to_iso_string now)
      ∷ [])

  abbrev pub readme_txt : ℕ → Evidence → String
  readme_txt now e = join "\n" (
      "PAQUETE FORENSE MEDIAVAULT"
      ∷ ""
      ∷ "Este paquete contiene evidencia multimedia con cadena de custodia criptográfica."
      ∷ ""
      ∷ "Para verificar la integridad del archivo:"
      ∷ "  1. Abrir una terminal en el directorio del paquete extraído"
      ∷ ("  2. Ejecutar: sha256sum media/" <> media_filename e)
      ∷ "  3. Comparar con el hash en integrity.txt"
      ∷ ""
      ∷ "En sistemas Windows, puede usar certutil:"
      ∷ ("  certutil -hashfile media/" <> media_filename e <> " SHA256")
      ∷ ""
      ∷ ("Generado: " <> runtime.to_iso_string now)
      ∷ "Plataforma: MediaVault v1.0.0"
      ∷ [])

  -- `if (fs.existsSync(absolutePath)) archive.file(absolutePath, …)`.
  abbrev pub media : Evidence → Evidences env → List Entry
  media e s =
      let path = absolute_path runtime env.root e.storage_path in
      if runtime.exists path s.files
      then record { name = e.id <> "/media/" <> media_filename e; content = disk path } ∷ []
      else []

  -- The entries of `exportEvidence`.
  unfoldable pub archive_entries : ℕ → Evidence → List AuditEntity → Evidences env → List Entry
  unfolding generate_custody_record
  archive_entries now e trail s =
      media e s
      ++ (record { name = e.id <> "/metadata.json"; content = metadata_json (metadata_of e s) }
          ∷ record {
            name = e.id <> "/chain_of_custody.json";
            content = custody_json (generate_custody_record now e s);
          }
          ∷ record { name = e.id <> "/audit_trail.json"; content = trail_json trail }
          ∷ record { name = e.id <> "/integrity.txt"; content = plain (integrity_txt now e) }
          ∷ record { name = e.id <> "/README.txt"; content = plain (readme_txt now e) }
          ∷ [])

  -- The entries of one evidence in `exportMultipleEvidences`.
  abbrev pub package_of_many : ℕ → Map (List AuditEntity) → Evidences env → Evidence → List Entry
  package_of_many now trails s e =
      media e s
      ++ (record {
        name = e.id <> "/chain_of_custody.json";
        content = custody_json (generate_custody_record now e s);
      }
          ∷ record {
            name = e.id <> "/audit_trail.json";
            content = trail_json (get_or (Prelude.get e.id trails) []);
          }
          ∷ record { name = e.id <> "/integrity.txt"; content = plain (integrity_txt now e) }
          ∷ [])

  unfoldable pub package_all :
      ℕ → Map (List AuditEntity) → Evidences env → List Evidence → List Entry
  package_all now trails s [] = []
  package_all now trails s (e ∷ es) = package_of_many now trails s e ++ package_all now trails s es

  unfoldable pub export_multiple_evidences :
      ℕ → List Evidence → Map (List AuditEntity) → Evidences env → Result (List Entry)
  export_multiple_evidences now es trails s =
      if ltb 50 (length es) then err bad_request else ok (package_all now trails s es)

  -- What a verification of a stored evidence with a readable file finds intact goes into its package:
  -- the package has the file, and a chain of custody that states the digest of the file's bytes.
  pub archive_entries-verify_evidence :
      (now later : ℕ) (uuid id uid : String) (s : Evidences env) (e : Evidence) (b : Bytes)
      (r : IntegrityResult) (trail : List AuditEntity)
      → find_evidence env id s ≡ some e
      → content env e s ≡ some b
      → (verify_evidence env now uuid id uid s).1 ≡ ok r
      → r.is_valid ≡ true
      → (path : String) × (custody : CustodyRecord) × Memᴰ
          (record { name = e.id <> "/media/" <> media_filename e; content = disk path })
          (archive_entries later e trail s)
        × (runtime.read_file path s.files ≡ some b)
        × Memᴰ
            (record { name = e.id <> "/chain_of_custody.json"; content = custody_json custody })
            (archive_entries later e trail s)
        × (custody.evidence_id ≡ e.id)
        × (digest env (runtime.sha256 b) ≡ digest env custody.sha256)
  unfolding archive_entries generate_custody_record
  archive_entries-verify_evidence now later uuid id uid s e b r trail found there v valid =
      let path = absolute_path runtime env.root e.storage_path in
      let (r', answered, sound, count) =
        verify_evidence_lem env now uuid id uid s e b found there in
      let same : r' ≡ r = ground (arith, answered, v) in
      (
        path,
        generate_custody_record later e s,
        rw (runtime.exists-read_file path s.files b there) (Memᴰ.head refl),
        there,
        rw (runtime.exists-read_file path s.files b there) (Memᴰ.tail (Memᴰ.tail (Memᴰ.head refl))),
        refl,
        sound.0 (ground arith),
      )
