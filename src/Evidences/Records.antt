-- ===== src/Evidences/Records.antt =====
-- The entity, the requests and the answers of src/modules/evidences. A row has the ids of its
-- relations; the loaded ones are looked up. A size is a number, which the column keeps as a text.
use mediavault_backend.Prelude.{ℕ, String, Bool, Option, Map}
use mediavault_backend.Audit.{Value}
use mediavault_backend.Platform.Runtime.{Bytes}

pub data EvidenceType : Type 0 where
  video photo snapshot dvr_clip : EvidenceType

abbrev pub type_word : EvidenceType → String
type_word video = "video"
type_word photo = "photo"
type_word snapshot = "snapshot"
type_word dvr_clip = "dvr_clip"

pub record Evidence : Type 0 where
  pub id : String
  pub stream_id : Option String
  pub event_id : Option String
  pub evidence_type : EvidenceType
  pub storage_path : String
  pub hash_sha256 : String
  pub file_size_bytes : ℕ
  pub duration_seconds : Option ℕ
  pub metadata : Option (Map Value)
  pub recorded_at : Option ℕ
  pub uploaded_by : String
  pub created_at : ℕ

abbrev pub evidence_key : Evidence → String
evidence_key e = e.id

-- What the service reads of `Express.Multer.File`.
pub record UploadedFile : Type 0 where
  pub mimetype : String
  pub buffer : Bytes

pub record CreateEvidenceDto : Type 0 where
  pub stream_id : Option String
  pub event_id : Option String
  pub evidence_type : EvidenceType
  pub recorded_at : Option ℕ
  pub metadata : Option (Map Value)

pub record SnapshotCreateDto : Type 0 where
  pub stream_id : String
  pub image_base64 : String
  pub metadata : Option (Map Value)

pub record CreateDvrClipDto : Type 0 where
  pub stream_id : String
  pub start_time : String
  pub end_time : String
  pub description : Option String

pub record EvidenceResponse : Type 0 where
  pub id : String
  pub evidence_type : EvidenceType
  pub stream_id : Option String
  pub stream_name : Option String
  pub event_id : Option String
  pub uploaded_by_id : Option String
  pub uploaded_by_name : Option String
  pub hash_sha256 : String
  pub file_size_bytes : ℕ
  pub duration_seconds : Option ℕ
  pub metadata : Option (Map Value)
  pub recorded_at : Option ℕ
  pub created_at : ℕ
  pub integrity_status : String
  pub download_url : Option String

pub record IntegrityResult : Type 0 where
  pub is_valid : Bool
  pub computed_hash : String
  pub expected_hash : String
  pub verified_at : ℕ

pub record Download : Type 0 where
  pub absolute_path : String
  pub hash_sha256 : String
  pub storage_path : String
  pub evidence_id : String
