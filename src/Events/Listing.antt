-- ===== src/Events/Listing.antt =====
-- `findAll` of src/modules/events/events.service.ts. The dates of a request are times. A condition on
-- the joined streams leaves only the streams that pass it in the rows.
use mediavault_backend.Prelude.{
  ℕ, ◌<◌, String, Bool, true, false, Option, none, some, List, [], ◌∷◌, ◌&&◌, ◌||◌, ◌==◌, ◌≡◌, map,
  any, filter, get_or, if◌then◌else◌, length, leb, refl, All, Bool-cases, inl, inr, eq_iff,
}
use mediavault_backend.Platform.Repository.{Repository}
use mediavault_backend.Platform.Queries.{Queries, like, newest}
use mediavault_backend.Paging.{page_rows, total_pages, Paged, when_given, when_defined}
use mediavault_backend.Paging.Pages.{answers, answers_all, All-map}
use mediavault_backend.Paging.Queried.{queried}
use mediavault_backend.Streams.Stream.{Stream}
use mediavault_backend.Events.Records.{
  EventStatus, open_event, closed, archived, Event, event_key, EventResponse, StreamSummary,
  summary, to_dto,
}

pub record EventFilters : Type 0 where
  pub status : Option EventStatus
  pub search : Option String
  pub from_date : Option ℕ
  pub to_date : Option ℕ
  pub stream_id : Option String
  pub page : Option ℕ
  pub limit : Option ℕ

abbrev pub same_status : EventStatus → EventStatus → Bool
same_status open_event open_event = true
same_status closed closed = true
same_status archived archived = true
same_status _ _ = false

abbrev pub has_id : String → Stream → Bool
has_id id v = v.id == id

-- The row with the streams that the join leaves.
abbrev pub joined : Option String → Event → Event
joined none e = e
joined (some id) e = if id == "" then e else record e { streams = filter (has_id id) e.streams }

module _ (repo : Repository Event event_key) (q : Queries) where
  unfoldable pub is_listed : EventFilters → Event → Bool
  is_listed f e =
      when_defined f.status (same_status e.status)
      && when_given f.search (λ s. like q s (some e.title) || like q s e.description)
      && when_defined f.from_date (λ t. leb t e.created_at)
      && when_defined f.to_date (λ t. leb e.created_at t)
      && when_given f.stream_id (λ id. any (has_id id) e.streams)

  unfoldable pub listed : EventFilters → repo.Table → List Event
  listed f t = queried repo q (newest (λ (e : Event). e.created_at)) (is_listed f) t

  -- `evidences` is the number of evidences of an event.
  abbrev pub view : (String → ℕ) → EventFilters → Event → EventResponse
  view evidences f e = to_dto (evidences e.id) (joined f.stream_id e)

  unfoldable pub find_all : (String → ℕ) → EventFilters → repo.Table → Paged EventResponse
  find_all evidences f t = record {
    rows = map (view evidences f) (page_rows (get_or f.page 1) (get_or f.limit 20) (listed f t));
    page = get_or f.page 1;
    limit = get_or f.limit 20;
    total = length (listed f t);
  }

  find_all_pages :
      (evidences : String → ℕ) (f : EventFilters) (t : repo.Table)
      → 0 < get_or f.limit 20
      → answers
          (λ page. find_all evidences (record f { page = some page }) t)
          (total_pages (find_all evidences f t).total (get_or f.limit 20))
        ≡ map (view evidences f) (listed f t)
  unfolding find_all listed is_listed
  find_all_pages evidences f t h =
      answers_all (view evidences f) (λ page. find_all evidences (record f { page = some page }) t)
        (get_or f.limit 20) (listed f t) h (λ page. refl)

  summaries_only :
      (id : String) (vs : List Stream)
      → All (λ (v : StreamSummary). v.id ≡ id) (map summary (filter (has_id id) vs))
  summaries_only id [] = tt
  summaries_only id (v ∷ vs) = elim (Bool-cases (has_id id v)) [
    | inl e ↦ rw e ((eq_iff v.id id).0 e, summaries_only id vs)
    | inr e ↦ rw e (summaries_only id vs)
  ]

  view_only :
      (evidences : String → ℕ) (f : EventFilters) (id : String) (e : Event)
      → f.stream_id ≡ some id
      → (id == "") ≡ false
      → All (λ (v : StreamSummary). v.id ≡ id) (view evidences f e).streams
  view_only evidences f id e g n = rw (g, n) (summaries_only id e.streams)

  -- A list of the events of a stream shows, of the streams of each event, that stream alone.
  find_all-only :
      (evidences : String → ℕ) (f : EventFilters) (id : String) (t : repo.Table)
      → f.stream_id ≡ some id
      → (id == "") ≡ false
      → All
          (λ (r : EventResponse). All (λ (v : StreamSummary). v.id ≡ id) r.streams)
          (find_all evidences f t).rows
  unfolding find_all
  find_all-only evidences f id t g n =
      All-map (λ (r : EventResponse). All (λ (v : StreamSummary). v.id ≡ id) r.streams)
        (view evidences f) (page_rows (get_or f.page 1) (get_or f.limit 20) (listed f t))
        λ e m. view_only evidences f id e g n
