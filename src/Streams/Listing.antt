-- ===== src/Streams/Listing.antt =====
-- `findAll` of src/modules/streams/streams.service.ts. The query has no order: in which order the
-- database hands its rows out this time is an argument. A page is a whole number.
use mediavault_backend.Prelude.{
  ℕ, ◌≤◌, min, max, String, Bool, Option, none, some, List, [], ◌∷◌, ◌&&◌, ◌||◌, ◌==◌, ◌≡◌, length,
  arith, Result, ok, err, Result-cases, inl, inr,
}
use mediavault_backend.Platform.Repository.{Repository}
use mediavault_backend.Platform.Queries.{Queries, like}
use mediavault_backend.Ingestion.Service.{is_running, get_status}
use mediavault_backend.Paging.{page_rows, total_pages, when_given, when_defined}
use mediavault_backend.Paging.Pages.{length-page_rows}
use mediavault_backend.Streams.Stream.{
  Stream, stream_key, StreamStatus, status_text, StreamProtocol, protocol_text,
}
use mediavault_backend.Streams.Requests.{StreamResponse, to_response_dto, Wowza}
use mediavault_backend.Streams.Service.{Streams, answered, fulfilled, status_now}

-- `negsuc n` is -(n + 1).
pub data ℤ : Type 0 where
  pos : ℕ → ℤ
  negsuc : ℕ → ℤ

-- `Math.max(1, n)`.
abbrev pub at_least_one : ℤ → ℕ
at_least_one (pos n) = max 1 n
at_least_one (negsuc n) = 1

abbrev pub page_of : Option ℤ → ℕ
page_of none = 1
page_of (some n) = at_least_one n

-- `Math.min(100, Math.max(1, limit ?? 20))`.
abbrev pub limit_of : Option ℤ → ℕ
limit_of none = 20
limit_of (some n) = min 100 (at_least_one n)

page_of_bound : (n : Option ℤ) → 1 ≤ page_of n
page_of_bound none = omega arith
page_of_bound (some (pos n)) = omega arith
page_of_bound (some (negsuc n)) = omega arith

limit_of_bounds : (n : Option ℤ) → (1 ≤ limit_of n) × (limit_of n ≤ 100)
limit_of_bounds none = omega arith
limit_of_bounds (some (pos n)) = omega arith
limit_of_bounds (some (negsuc n)) = omega arith

one-le-max : (n : ℕ) → 1 ≤ max 1 n
one-le-max n = omega arith

pub record StreamFilters : Type 0 where
  pub status : Option StreamStatus
  pub protocol : Option StreamProtocol
  pub location : Option String
  pub search : Option String
  pub wowza_app_name : Option String

pub record StreamPage : Type 0 where
  pub rows : List StreamResponse
  pub page : ℕ
  pub limit : ℕ
  pub total : ℕ
  pub pages : ℕ

unfoldable pub is_listed : Queries → StreamFilters → Stream → Bool
is_listed q f v =
    when_defined f.status (λ s. status_text v.status == status_text s)
    && when_defined f.protocol (λ p. protocol_text v.protocol == protocol_text p)
    && when_given f.location (λ l. like q l v.location)
    && when_given f.search (λ t. like q t (some v.name) || like q t v.description)
    && when_given f.wowza_app_name (λ a. v.wowza_app_name == a)

module _ (repo : Repository Stream stream_key) (q : Queries) where
  -- A failure to build the addresses is passed on, one to ask Wowza is not.
  abbrev pub enrich_stream_for_list : Wowza → Streams repo → Stream → Result StreamResponse
  enrich_stream_for_list w s v = elim (w.build_playback_urls v.wowza_app_name v.wowza_stream_name) [
    | err x ↦ err x
    | ok urls ↦ ok (record (to_response_dto v) {
      playback_urls = some urls;
      is_live_in_wowza =
          is_running v.id s.ingestion
          || answered (fulfilled (w.get_incoming_stream v.wowza_app_name v.wowza_stream_name));
      ingestion_status = status_now (get_status v.id s.ingestion).1;
    })
  ]

  -- `Promise.all`.
  unfoldable pub enrich_all : Wowza → Streams repo → List Stream → Result (List StreamResponse)
  enrich_all w s [] = ok []
  enrich_all w s (v ∷ vs) =
      let rest = enrich_all w s vs in
      elim (enrich_stream_for_list w s v) [
        | err x ↦ err x
        | ok r ↦ elim rest [ err x ↦ err x | ok rs ↦ ok (r ∷ rs) ]
      ]

  unfoldable pub find_all :
      (List Stream → List Stream)
      → Wowza
      → StreamFilters
      → Option ℤ
      → Option ℤ
      → Streams repo
      → Result StreamPage
  find_all arrange w f page limit s =
      let found = arrange (repo.find (is_listed q f) s.streams) in
      elim (enrich_all w s (page_rows (page_of page) (limit_of limit) found)) [
        | err x ↦ err x
        | ok rows ↦ ok (record {
          rows = rows;
          page = page_of page;
          limit = limit_of limit;
          total = length found;
          pages = max 1 (total_pages (length found) (limit_of limit));
        })
      ]

  length-enrich_all :
      (w : Wowza) (s : Streams repo) (vs : List Stream) (rs : List StreamResponse)
      → enrich_all w s vs ≡ ok rs
      → length rs ≡ length vs
  unfolding enrich_all
  length-enrich_all w s [] rs h = ground arith
  length-enrich_all w s (v ∷ vs) rs h = elim (Result-cases (enrich_stream_for_list w s v)) [
    | inr (x, e) ↦ absurd (ground arith)
    | inl (r, e) ↦ elim (Result-cases (enrich_all w s vs)) [
      | inr (x, e') ↦ absurd (ground arith)
      | inl (rs', e') ↦ ground (arith, length-enrich_all w s vs rs' e')
    ]
  ]

  -- Whatever whole numbers are asked for, a page has from 1 to 100 streams as its limit and no more
  -- streams than that, its number is 1 at least, and so is the number of pages.
  pub find_all_bounds :
      (arrange : List Stream → List Stream) (w : Wowza) (f : StreamFilters) (page limit : Option ℤ)
      (s : Streams repo) (answer : StreamPage)
      → find_all arrange w f page limit s ≡ ok answer
      → (1 ≤ answer.page)
        × (1 ≤ answer.limit)
        × (answer.limit ≤ 100)
        × (length answer.rows ≤ answer.limit)
        × (1 ≤ answer.pages)
  unfolding find_all
  find_all_bounds arrange w f page limit s answer h =
      let found = arrange (repo.find (is_listed q f) s.streams) in
      let shown = page_rows (page_of page) (limit_of limit) found in
      elim (Result-cases (enrich_all w s shown)) [
        | inr (x, e) ↦ absurd (ground arith)
        | inl (rows, e) ↦
            let fits = length-page_rows (page_of page) (limit_of limit) found in
            let same = length-enrich_all w s shown rows e in
            let p = page_of_bound page in
            let l = limit_of_bounds limit in
            let a : ok (record {
              rows = rows;
              page = page_of page;
              limit = limit_of limit;
              total = length found;
              pages = max 1 (total_pages (length found) (limit_of limit));
            })
                ≡ ok answer =
              ground arith in
            (
              ground arith,
              ground arith,
              ground arith,
              ground arith,
              ground (arith, one-le-max (total_pages (length found) (limit_of limit))),
            )
      ]
