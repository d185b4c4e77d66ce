-- ===== src/Examples/Lists.antt =====
-- The theorems on lists, on an exported archive and on the keys that Redis counts.
use mediavault_backend.Prelude.{
  List, ℕ, ◌≤◌, String, true, none, some, [], ◌∷◌, ◌≡◌, Map, All, refl, arith, ok, set, get, delete,
  map, length,
}
use mathlib.Core.List.{Memᴰ}
use mediavault_backend.Audit.{Value}
use mediavault_backend.Audit.Csv.{◌<>◌}
use mediavault_backend.Redis.{RedisService}
use mediavault_backend.Paging.{total_pages}
use mediavault_backend.Paging.Pages.{answers}
use mediavault_backend.Evidences.Service.{create, verify_evidence}
use mediavault_backend.Evidences.Storage.{save_file, verify_integrity}
use mediavault_backend.Evidences.Records.{EvidenceResponse}
use mediavault_backend.Evidences.Listing.{
  EvidenceFilters, find_all, find_all_pages, find_all-viewer, listed, view,
}
use mediavault_backend.Evidences.Integrity.{digest}
use mediavault_backend.Evidences.Archive.{
  disk, custody_json, CustodyRecord, media_filename, archive_entries,
  archive_entries-verify_evidence,
}
use mediavault_backend.Streams.Listing as Streams
use mediavault_backend.Streams.Listing.{
  StreamFilters, StreamPage, pos, negsuc, find_all_bounds, enrich_all,
}
use mediavault_backend.Streams.Requests.{Wowza, to_response_dto}
use mediavault_backend.Ingestion.Service.{is_running, get_status}
use mediavault_backend.Security.{revoke_all_user_sessions}
use mediavault_backend.Security.Sessions.{
  SessionFilters, get_active_sessions, get_active_sessions-revoke_all,
}
use mediavault_backend.Audit.Listing.{entity_key}
use mediavault_backend.Examples.Tables.{list_repository, first, visible, without}
use mediavault_backend.Examples.Server.{Entry as Kept, map_redis, ana}
use mediavault_backend.Examples.Server as Server
use mediavault_backend.Examples.Ordering.{sorted_queries}
use mediavault_backend.Examples.StreamRows.{repo, idle, gate}
use mediavault_backend.Examples.Revocations.{online}
use mediavault_backend.Examples.Uploads as Uploads
use mediavault_backend.Examples.Uploads.{env, uploaded, stored, stored_found}

abbrev keys : Map (String × ℕ)
keys = ("wowza_token:a", ("1", 9)) ∷ ("download:b", ("1", 9)) ∷ ("wowza_token:c", ("1", 9)) ∷ []

abbrev service : RedisService map_redis
service = record { client = some keys; available = true }

abbrev no_filters : EvidenceFilters
no_filters = record {
  evidence_type = none;
  stream_id = some "s1";
  event_id = none;
  uploaded_by = none;
  from_date = none;
  to_date = none;
  search = none;
  page = none;
  limit = some 1;
}

abbrev metadata_text : Map Value → String
metadata_text m = "{}"

find_all_pages_example :
    answers
      (λ page.
        find_all env sorted_queries metadata_text
          (record no_filters { page = some page })
          "u1"
          "viewer"
          uploaded)
      (total_pages
        (find_all env sorted_queries metadata_text no_filters "u1" "viewer" uploaded).total
        1)
    ≡ map
        (view env sorted_queries metadata_text uploaded)
        (listed env sorted_queries metadata_text no_filters "u1" "viewer" uploaded)
find_all_pages_example =
    find_all_pages env sorted_queries metadata_text no_filters "u1" "viewer" uploaded (omega arith)

find_all-viewer_example :
    All
      (λ (r : EvidenceResponse). r.uploaded_by_id ≡ some "u1")
      (find_all env sorted_queries metadata_text no_filters "u1" "viewer" uploaded).rows
find_all-viewer_example = find_all-viewer env sorted_queries metadata_text no_filters "u1" uploaded

abbrev extname : String → String
extname path = ".jpg"

computing : Unit {0}
unfolding create verify_evidence save_file verify_integrity get set delete first visible without
computing = tt

archive_entries-verify_evidence_example :
    (path : String) × (custody : CustodyRecord) × Memᴰ
      (record {
        name = stored.id <> "/media/" <> media_filename env extname stored;
        content = disk path;
      })
      (archive_entries env extname 12 stored [] uploaded)
    × (Uploads.disk.read_file path uploaded.files ≡ some (1 ∷ 2 ∷ 3 ∷ []))
    × Memᴰ
        (record { name = stored.id <> "/chain_of_custody.json"; content = custody_json custody })
        (archive_entries env extname 12 stored [] uploaded)
    × (custody.evidence_id ≡ stored.id)
    × (digest env (Uploads.disk.sha256 (1 ∷ 2 ∷ 3 ∷ [])) ≡ digest env custody.sha256)
archive_entries-verify_evidence_example =
    archive_entries-verify_evidence env extname 9 12 "a1" "v1" "u0" uploaded stored (1 ∷ 2 ∷ 3 ∷ [])
      (record { is_valid = true; computed_hash = "ab"; expected_hash = "ab"; verified_at = 9 }) []
      stored_found (unfold computing in refl) (unfold computing in refl) refl

abbrev answering : Wowza
answering = record {
  build_playback_urls = λ app name. ok [];
  get_incoming_stream = λ app name. ok (some true);
  get_connections = ok [];
}

abbrev any_stream : StreamFilters
any_stream = record {
  status = none;
  protocol = none;
  location = none;
  search = none;
  wowza_app_name = none;
}

abbrev shown : StreamPage
shown = record {
  rows = record (to_response_dto gate) { playback_urls = some []; is_live_in_wowza = true } ∷ [];
  page = 1;
  limit = 100;
  total = 1;
  pages = 1;
}

gate_shown :
    Streams.find_all repo sorted_queries
      (λ vs. vs)
      answering
      any_stream
      (some (negsuc 4))
      (some (pos 500))
      idle
    ≡ ok shown
unfolding Streams.find_all enrich_all Streams.is_listed visible is_running get_status get
gate_shown = refl

find_all_bounds_example :
    (1 ≤ shown.page)
    × (1 ≤ shown.limit)
    × (shown.limit ≤ 100)
    × (length shown.rows ≤ shown.limit)
    × (1 ≤ shown.pages)
find_all_bounds_example =
    find_all_bounds repo sorted_queries (λ vs. vs) answering any_stream (some (negsuc 4))
      (some (pos 500)) idle shown gate_shown

abbrev of_ana : SessionFilters
of_ana = record { user_id = some "u1"; role = none; from_date = none }

get_active_sessions-revoke_all_example :
    get_active_sessions Server.env sorted_queries Uploads.disk
      (list_repository entity_key)
      30
      of_ana
      (revoke_all_user_sessions Server.env 20 "u1" "u0" online).0
    ≡ []
get_active_sessions-revoke_all_example =
    get_active_sessions-revoke_all Server.env sorted_queries Uploads.disk
      (list_repository entity_key) 20 30 "u1" "u0" online (omega arith) refl
