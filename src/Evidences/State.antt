-- ===== src/Evidences/State.antt =====
-- What src/modules/evidences/evidences.service.ts works on: the tables and services it is given, what it
-- tests an image by, and how a row is shown.
use Prim.Native.String
use mediavault_backend.Prelude.{
  ℕ, ◌*◌, String, Bool, true, false, ◌&&◌, ◌||◌, Option, none, some, List, [], ◌∷◌, ◌==◌,
  if◌then◌else◌, eqb, get, Map, Result,
}
use mediavault_backend.Platform.Repository.{Repository}
use mediavault_backend.Platform.RedisClient.{RedisClient}
use mediavault_backend.Platform.Runtime.{Runtime, Bytes}
use mediavault_backend.Redis.{RedisService}
use mediavault_backend.Audit.{AuditLog, Value, text, number}
use mediavault_backend.Gateway.Emissions.{Emission}
use mediavault_backend.Prelude.Trim.{trim_start, trim_end}
use mediavault_backend.Backend.{User, user_id}
use mediavault_backend.Streams.Stream.{Stream, stream_key}
use mediavault_backend.Events.Records.{Event, event_key}
use mediavault_backend.Evidences.Records.{Evidence, evidence_key, EvidenceResponse}

abbrev pub max_snapshot_bytes : ℕ
max_snapshot_bytes = 10 * 1024 * 1024

abbrev pub png_magic : Bytes
png_magic = 0x89 ∷ 0x50 ∷ 0x4e ∷ 0x47 ∷ 0x0d ∷ 0x0a ∷ 0x1a ∷ 0x0a ∷ []

abbrev pub jpeg_magic : Bytes
jpeg_magic = 0xff ∷ 0xd8 ∷ 0xff ∷ []

-- `magic.every((byte, i) => buffer[i] === byte)`.
unfoldable pub begins_with : Bytes → Bytes → Bool
begins_with [] b = true
begins_with (m ∷ ms) [] = false
begins_with (m ∷ ms) (b ∷ bs) = eqb b m && begins_with ms bs

unfoldable pub is_valid_image_buffer : Bytes → Bool
unfolding begins_with
is_valid_image_buffer b = begins_with png_magic b || begins_with jpeg_magic b

pub record EvidenceEnv : Type 1 where
  pub evidences : Repository Evidence evidence_key
  pub streams : Repository Stream stream_key
  pub events : Repository Event event_key
  pub users : Repository User user_id
  pub redis : RedisClient
  pub runtime : Runtime
  -- `STORAGE_PATH`.
  pub root : String

pub record Evidences (env : EvidenceEnv) : Type 0 where
  pub evidences : env.evidences.Table
  pub streams : env.streams.Table
  pub events : env.events.Table
  pub users : env.users.Table
  pub redis : RedisService env.redis
  pub files : env.runtime.Files
  pub audit : List AuditLog
  pub sent : List Emission

-- What Wowza answers during a call.
pub record DvrAnswers : Type 0 where
  pub check_dvr_available : Bool
  pub build_dvr_clip_url : String → String → ℕ → ℕ → Result String

abbrev pub truthy : Option String → Option String
truthy none = none
truthy (some s) = if s == "" then none else some s

abbrev pub as_number : Option Value → Option ℕ
as_number (some (number n)) = some n
as_number _ = none

-- `metadata?.duration`.
abbrev pub duration_of : Option (Map Value) → Option ℕ
duration_of none = none
duration_of (some m) = as_number (get "duration" m)

abbrev pub text_or_absent : String → Option String → Map Value
text_or_absent k none = []
text_or_absent k (some s) = (k, text s) ∷ []

abbrev pub id_of : Option Stream → Option String
id_of none = none
id_of (some s) = some s.id

abbrev pub name_of : Option Stream → Option String
name_of none = none
name_of (some s) = some s.name

-- The identifier and the name of the relation `uploadedBy`.
abbrev pub Uploader : Type 0
Uploader = Option (String × String)

-- With the name `${firstName ?? ''} ${lastName ?? ''}`.trim().
abbrev pub uploader_view : Option User → Uploader
uploader_view none = none
uploader_view (some u) =
    some (u.id, trim_end (trim_start (String.◌++◌ u.first_name (String.◌++◌ " " u.last_name))))

-- `toResponseDto`, with the loaded stream, the identifier of the loaded event and the loaded uploader.
abbrev pub to_response_dto :
    Evidence → Option Stream → Option String → Uploader → Option String → EvidenceResponse
to_response_dto e s event by url = record {
  id = e.id;
  evidence_type = e.evidence_type;
  stream_id = id_of s;
  stream_name = name_of s;
  event_id = event;
  uploaded_by_id = elim by [ none ↦ none | some (uid, name) ↦ some uid ];
  uploaded_by_name = elim by [ none ↦ none | some (uid, name) ↦ some name ];
  hash_sha256 = e.hash_sha256;
  file_size_bytes = e.file_size_bytes;
  duration_seconds = e.duration_seconds;
  metadata = e.metadata;
  recorded_at = e.recorded_at;
  created_at = e.created_at;
  integrity_status = "unknown";
  download_url = url;
}

abbrev pub clip_path : String → Stream → String
clip_path id v = String.◌++◌ "dvr/" (
    String.◌++◌ v.wowza_app_name (
      String.◌++◌ "/" (String.◌++◌ v.wowza_stream_name (String.◌++◌ "/" (String.◌++◌ id ".m3u8")))))
