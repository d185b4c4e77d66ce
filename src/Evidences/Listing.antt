-- ===== src/Evidences/Listing.antt =====
-- `findAll` of src/modules/evidences/evidences.service.ts. The dates of a request are times, and
-- `metadata::text` is what PostgreSQL writes for the metadata.
use mediavault_backend.Prelude.{
  ℕ, ◌<◌, String, Bool, true, false, Option, none, some, List, ◌&&◌, ◌==◌, ◌≡◌, map, leb, get_or,
  if◌then◌else◌, length, Map, arith, All, refl, ap, eq_iff,
}
use mediavault_backend.Platform.Queries.{Queries, like, newest_or_null}
use mediavault_backend.Audit.{Value}
use mediavault_backend.Backend.{User}
use mediavault_backend.Paging.{page_rows, total_pages, Paged, when_given, when_defined, equals}
use mediavault_backend.Paging.Pages.{answers, answers_all, All-map}
use mediavault_backend.Paging.Queried.{queried, page-passes}
use mediavault_backend.Evidences.Records.{Evidence, EvidenceType, type_word, EvidenceResponse}
use mediavault_backend.Evidences.State.{
  EvidenceEnv, Evidences, to_response_dto, uploader_view, id_of,
}
use mediavault_backend.Evidences.Service.{loaded_stream, loaded_event, uploader, is_uploader}

-- `EvidenceFiltersDto`, without `integrityVerified`, which the service never reads.
pub record EvidenceFilters : Type 0 where
  pub evidence_type : Option EvidenceType
  pub stream_id : Option String
  pub event_id : Option String
  pub uploaded_by : Option String
  pub from_date : Option ℕ
  pub to_date : Option ℕ
  pub search : Option String
  pub page : Option ℕ
  pub limit : Option ℕ

abbrev at_least : Option ℕ → ℕ → Bool
at_least none from_ms = false
at_least (some t) from_ms = leb from_ms t

abbrev at_most : Option ℕ → ℕ → Bool
at_most none to_ms = false
at_most (some t) to_ms = leb t to_ms

module _ (env : EvidenceEnv) (q : Queries) (metadata_text : Map Value → String) where
  abbrev column_text : Option (Map Value) → Option String
  column_text none = none
  column_text (some m) = some (metadata_text m)

  -- The conditions of the query, for the user and its role.
  unfoldable pub is_listed : EvidenceFilters → String → String → Evidences env → Evidence → Bool
  is_listed f uid role s e =
      (if role == "viewer" then is_uploader env uid (uploader env e s) else true)
      && when_defined f.evidence_type (λ t. type_word e.evidence_type == type_word t)
      && when_given f.stream_id (equals (id_of (loaded_stream env e s)))
      && when_given f.event_id (equals (loaded_event env e s))
      && when_given f.uploaded_by (λ id. is_uploader env id (uploader env e s))
      && when_defined f.from_date (at_least e.recorded_at)
      && when_defined f.to_date (at_most e.recorded_at)
      && when_given f.search (λ search. like q search (column_text e.metadata))

  -- The rows that the query finds, in its order.
  unfoldable pub listed : EvidenceFilters → String → String → Evidences env → List Evidence
  listed f uid role s =
      queried env.evidences q (newest_or_null (λ e. e.recorded_at)) (is_listed f uid role s)
        s.evidences

  abbrev pub view : Evidences env → Evidence → EvidenceResponse
  view s e =
      to_response_dto e (loaded_stream env e s) (loaded_event env e s)
        (uploader_view (uploader env e s)) none

  unfoldable pub find_all :
      EvidenceFilters → String → String → Evidences env → Paged EvidenceResponse
  find_all f uid role s = record {
    rows = map (view s) (page_rows (get_or f.page 1) (get_or f.limit 20) (listed f uid role s));
    page = get_or f.page 1;
    limit = get_or f.limit 20;
    total = length (listed f uid role s);
  }

  -- For a limit above 0, the pages 1 to the number of pages, one after the other, are the views of all
  -- rows of the query, in its order: none is left out or shown twice.
  pub find_all_pages :
      (f : EvidenceFilters) (uid role : String) (s : Evidences env)
      → 0 < get_or f.limit 20
      → answers
          (λ page. find_all (record f { page = some page }) uid role s)
          (total_pages (find_all f uid role s).total (get_or f.limit 20))
        ≡ map (view s) (listed f uid role s)
  unfolding find_all listed is_listed
  find_all_pages f uid role s h =
      answers_all (view s) (λ page. find_all (record f { page = some page }) uid role s)
        (get_or f.limit 20) (listed f uid role s) h (λ page. refl)

  own_view :
      (uid : String) (s : Evidences env) (e : Evidence) (o : Option User)
      → uploader env e s ≡ o
      → is_uploader env uid o ≡ true
      → (view s e).uploaded_by_id ≡ some uid
  own_view uid s e none u h = absurd (cc)
  own_view uid s e (some u) j h = rw j (ap some ((eq_iff u.id uid).0 h))

  is_listed-own :
      (f : EvidenceFilters) (uid : String) (s : Evidences env) (e : Evidence)
      → is_listed f uid "viewer" s e ≡ true
      → is_uploader env uid (uploader env e s) ≡ true
  unfolding is_listed
  is_listed-own f uid s e h = ground arith

  -- A viewer sees no evidence but its own, whatever it filters by and on whatever page.
  pub find_all-viewer :
      (f : EvidenceFilters) (uid : String) (s : Evidences env)
      → All (λ r. r.uploaded_by_id ≡ some uid) (find_all f uid "viewer" s).rows
  unfolding find_all listed
  find_all-viewer f uid s =
      All-map (λ (r : EvidenceResponse). r.uploaded_by_id ≡ some uid) (view s)
        (page_rows (get_or f.page 1) (get_or f.limit 20) (listed f uid "viewer" s))
        λ e m.
          let passes =
            page-passes env.evidences q (newest_or_null (λ (r : Evidence). r.recorded_at))
              (is_listed f uid "viewer" s) s.evidences (get_or f.page 1) (get_or f.limit 20) e m in
          own_view uid s e (uploader env e s) refl (is_listed-own f uid s e passes)
