-- ===== src/Examples/Uploads.antt =====
-- The theorems on evidences with a file system in a list.
use Prim.Native.String
use Prim.Native.String.compare
use text.Mathlib.Text.{is_eq}
use Prim.Native.Char.{Char, code}
use mediavault_backend.Prelude.{
  length, ◌⊎◌, ◌≤◌, String, true, false, none, some, List, [], ◌∷◌, ◌≡◌, ap, eqb, Bool, ◌==◌, refl,
  arith, ok, err, internal_error, forbidden, get_or, if◌then◌else◌, get, set, delete, get-set,
  eq_refl, is_some, Option, Map,
}
use mediavault_backend.Platform.Runtime.{Runtime, Bytes}
use mediavault_backend.Backend.{user_id}
use mediavault_backend.Streams.Stream.{stream_key}
use mediavault_backend.Events.Records.{event_key}
use mediavault_backend.Evidences.Records.{
  Download, Evidence, evidence_key, photo, UploadedFile, CreateEvidenceDto, SnapshotCreateDto,
  CreateDvrClipDto, EvidenceResponse,
}
use mediavault_backend.Evidences.Storage.{
  save_file, verify_integrity, absolute_path, generate_download_token, resolve_download_token,
  invalidate_download_token,
}
use mediavault_backend.Evidences.State.{
  EvidenceEnv, Evidences, DvrAnswers, begins_with, is_valid_image_buffer,
}
use mediavault_backend.Evidences.Service.{
  find_evidence, create, verify_evidence, find_one, prepare_download,
}
use mediavault_backend.Evidences.Captures.{create_snapshot, create_dvr_clip}
use mediavault_backend.Evidences.Integrity.{
  content, verify_evidence-create, verify_evidence-create_dvr_clip, create_snapshot-stored,
}
use mediavault_backend.Evidences.Downloads.{
  Served, prepare_download-find_one, prepare_download_once,
}
use mediavault_backend.Redis as Redis
use mediavault_backend.Examples.Tables.{list_repository, first, visible, without}
use mediavault_backend.Examples.Server.{map_redis, ana, root}
use mediavault_backend.Examples.StreamRows.{gate}

pub is_some_of {ℓ} : {A : Type ℓ} {o : Option A} {a : A} → o ≡ some a → is_some o ≡ true
is_some_of e = rw e

-- Two texts in one: each character of the first has a mark before it, and another mark ends it.
abbrev pub encode : String → String → String
encode String.[] b = String.◌∷◌ "0" b
encode (String.◌∷◌ c a) b = String.◌∷◌ "1" (String.◌∷◌ c (encode a b))

abbrev pub with_first : Char → Option (String × String) → Option (String × String)
with_first c none = none
with_first c (some (a, b)) = some (String.◌∷◌ c a, b)

abbrev pub decode : Bool → String → Option (String × String)
decode m String.[] = none
decode true (String.◌∷◌ k s) =
    let rest = decode false s in if eqb (code k) 48 then some ("", s) else rest
decode false (String.◌∷◌ c s) = with_first c (decode true s)

pub decode-encode : (a b : String) → decode true (encode a b) ≡ some (a, b)
decode-encode String.[] b = refl
decode-encode (String.◌∷◌ c a) b = ap (with_first c) (decode-encode a b)

pub encode_nonempty : (a b : String) → (encode a b == "") ≡ false
encode_nonempty String.[] b = ap is_eq (String.compare.cons-nil "0" b)
encode_nonempty (String.◌∷◌ c a) b =
    ap is_eq (String.compare.cons-nil "1" (String.◌∷◌ c (encode a b)))

abbrev pub joined : List String → String
joined [] = ""
joined (w ∷ ws) = String.◌++◌ w (String.◌++◌ "/" (joined ws))

pub read_written :
    (path : String) (b : Bytes) (f f' : Map Bytes)
    → some (set path b f) ≡ some f'
    → get path f' ≡ some b
read_written path b f f' e = ground (arith, get-set path path b f, eq_refl path)

abbrev pub disk : Runtime
disk = record {
  Files = Map Bytes;
  write_file = λ path b f. some (set path b f);
  read_file = λ path f. get path f;
  exists = λ path f. is_some (get path f);
  exists-read_file = λ path f b e. is_some_of e;
  read_file-write_file = read_written;
  join = joined;
  date_folders = λ now. ("2024", "01", "02");
  date_ms = λ s. if s == "start" then 1000 else 5000;
  extension = λ m. some "jpg";
  sha256 = λ b. "ab";
  utf8 = λ s. [];
  from_base64 = λ s. 0xff ∷ 0xd8 ∷ 0xff ∷ [];
  from_hex = λ s. 171 ∷ [];
  stringify = encode;
  parse = decode true;
  parse-stringify = decode-encode;
  stringify_nonempty = encode_nonempty;
  stringify_texts = λ m. "{}";
  to_iso_string = λ ms. "2024";
}

abbrev pub env : EvidenceEnv
env = record {
  evidences = list_repository evidence_key;
  streams = list_repository stream_key;
  events = list_repository event_key;
  users = list_repository user_id;
  redis = map_redis;
  runtime = disk;
  root = "/data";
}

abbrev pub start : Evidences env
start = record {
  evidences = [];
  streams = gate ∷ [];
  events = [];
  users = ana ∷ root ∷ [];
  redis = record { client = some []; available = true };
  files = [];
  audit = [];
  sent = [];
}

abbrev pub photo_file : UploadedFile
photo_file = record { mimetype = "image/jpeg"; buffer = 1 ∷ 2 ∷ 3 ∷ [] }

abbrev pub dto : CreateEvidenceDto
dto = record {
  stream_id = some "s1";
  event_id = none;
  evidence_type = photo;
  recorded_at = none;
  metadata = none;
}

computing : Unit {0}
unfolding create create_snapshot create_dvr_clip verify_evidence find_one prepare_download save_file
    verify_integrity generate_download_token resolve_download_token invalidate_download_token
    Redis.set Redis.get Redis.del get set delete first visible without begins_with
    is_valid_image_buffer
computing = tt

abbrev pub uploaded : Evidences env
uploaded = (create env 5 "v1" "t1" (some photo_file) dto "u1" "ip" start).0

succeeded :
    (answer : EvidenceResponse) × (create env 5 "v1" "t1" (some photo_file) dto "u1" "ip" start
      ≡ (uploaded, ok answer))
unfolding computing
succeeded = (_, refl)

verify_evidence-create_example :
    let (after, result) = verify_evidence env 9 "a1" "v1" "u0" uploaded in
    (result
      ≡ ok (record {
        is_valid = true;
        computed_hash = "ab";
        expected_hash = succeeded.0.hash_sha256;
        verified_at = 9;
      }))
    × (after.sent ≡ uploaded.sent)
verify_evidence-create_example =
    verify_evidence-create env 5 9 "v1" "t1" "a1" photo_file dto "u1" "ip" "u0" start uploaded
      uploaded succeeded.0 succeeded.1 refl refl

abbrev pub stored : Evidence
stored = get_or (find_evidence env "v1" uploaded) (record {
  id = "";
  stream_id = none;
  event_id = none;
  evidence_type = photo;
  storage_path = "";
  hash_sha256 = "";
  file_size_bytes = 0;
  duration_seconds = none;
  metadata = none;
  recorded_at = none;
  uploaded_by = "";
  created_at = 0;
})

pub stored_found : find_evidence env "v1" uploaded ≡ some stored
unfolding computing
stored_found = refl

abbrev answers : DvrAnswers
answers = record {
  check_dvr_available = true;
  build_dvr_clip_url = λ app name from length. ok "http://dvr";
}

abbrev clip_request : CreateDvrClipDto
clip_request = record {
  stream_id = "s1";
  start_time = "start";
  end_time = "end";
  description = none;
}

abbrev clipped : Evidences env
clipped = (create_dvr_clip env 5 "c1" "t1" answers clip_request "u1" start).0

clip_made :
    (answer : EvidenceResponse) × (create_dvr_clip env 5 "c1" "t1" answers clip_request "u1" start
      ≡ (clipped, ok answer))
unfolding computing
clip_made = (_, refl)

verify_evidence-create_dvr_clip_example :
    (e : Evidence) × (find_evidence env "c1" clipped ≡ some e)
    × (content env e clipped ≡ none)
    × (verify_evidence env 9 "a1" "c1" "u0" clipped ≡ (clipped, err internal_error))
verify_evidence-create_dvr_clip_example =
    verify_evidence-create_dvr_clip env 5 9 "c1" "t1" "a1" answers clip_request "u1" "u0" start
      clipped clipped gate clip_made.0 (unfold computing in refl) (unfold computing in refl)
      clip_made.1 refl refl

abbrev picture : SnapshotCreateDto
picture = record { stream_id = "s1"; image_base64 = "/9j/"; metadata = none }

abbrev pictured : Evidences env
pictured = (create_snapshot env 5 "p1" "t1" picture "u1" start).0

picture_made :
    (answer : EvidenceResponse) × (create_snapshot env 5 "p1" "t1" picture "u1" start
      ≡ (pictured, ok answer))
unfolding computing
picture_made = (_, refl)

create_snapshot-stored_example :
    let b = disk.from_base64 picture.image_base64 in
    (length b ≤ 10485760)
    × ((rest : Bytes) × ((b ≡ 137 ∷ 80 ∷ 78 ∷ 71 ∷ 13 ∷ 10 ∷ 26 ∷ 10 ∷ rest)
          ⊎ (b ≡ 255 ∷ 216 ∷ 255 ∷ rest)))
    × (e : Evidence) × (find_evidence env "p1" pictured ≡ some e)
    × (content env e pictured ≡ some b)
    × (e.hash_sha256 ≡ disk.sha256 b)
create_snapshot-stored_example =
    create_snapshot-stored env 5 "p1" "t1" picture "u1" start pictured picture_made.0 picture_made.1

abbrev viewed : Evidences env
viewed = (find_one env 10 "t2" "v1" "u0" "admin" uploaded).0

seen :
    (answer : EvidenceResponse) × (find_one env 10 "t2" "v1" "u0" "admin" uploaded
      ≡ (viewed, ok answer))
unfolding computing
seen = (_, refl)

served : Served env 10 20 "t2" "v1" "u0" uploaded
unfolding computing
served = record {
  server = _;
  server' = _;
  answer = _;
  connects = refl;
  takes = refl;
  answers = refl;
}

abbrev download : Download
download = record {
  absolute_path = absolute_path disk "/data" stored.storage_path;
  hash_sha256 = stored.hash_sha256;
  storage_path = stored.storage_path;
  evidence_id = "v1";
}

fetched : (prepare_download env 20 "t2" none viewed).1 ≡ ok download
fetched =
    (prepare_download-find_one env 10 20 "t2" "v1" "u0" "admin" none uploaded viewed stored seen.0
      stored_found served (ground arith) (ground arith) seen.1).1

prepare_download-find_one_example :
    (seen.0.download_url ≡ some "t2") × ((prepare_download env 20 "t2" none viewed).1 ≡ ok download)
prepare_download-find_one_example =
    prepare_download-find_one env 10 20 "t2" "v1" "u0" "admin" none uploaded viewed stored seen.0
      stored_found served (ground arith) (ground arith) seen.1

abbrev taken : Evidences env
taken = (prepare_download env 20 "t2" none viewed).0

prepare_download_once_example : prepare_download env 21 "t2" none taken ≡ (taken, err forbidden)
unfolding computing
prepare_download_once_example =
    prepare_download_once env 20 21 "t2" none viewed taken download _ _ none refl refl refl
      (ap (λ r. (taken, r)) fetched)
