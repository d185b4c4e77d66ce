-- ===== src/Gateway/Announcements.antt =====
-- What the clients hear of a polling round of src/modules/gateway/streaming.gateway.ts, and what they
-- never hear.
use mediavault_backend.Prelude.{
  ℕ, String, true, false, some, List, [], ◌∷◌, ◌==◌, ◌≡◌, refl, arith, ap, ◌∙◌, get, Result, ok,
  err, filter, length, Option-cases, inl, inr,
}
use mediavault_backend.Ingestion.Config.{IngestionStatus, running, reconnecting}
use mediavault_backend.Ingestion.Service.{is_running, get_status, is_running_status}
use mediavault_backend.Platform.Repository.{Repository}
use mediavault_backend.Gateway.Emissions.{
  Emission, stream_status, emit_stream_event, emit_ingestion_status, ingestion_event,
}
use mediavault_backend.Gateway.Polling.{
  Gateway, announce, announce_status, announce_ingestion, poll_stream, poll_each, poll_wowza_status,
}
use mediavault_backend.Streams.Stream.{Stream, stream_key, status_text}
use mediavault_backend.Streams.Requests.{StreamResponse, Wowza}
use mediavault_backend.Streams.Service.{Streams, sync_status_from_wowza}

-- How many messages of an event were sent.
abbrev pub heard : String → List Emission → ℕ
heard event sent = length (filter (λ e. e.event == event) sent)

abbrev pub given_up_event : String
given_up_event = "ingestion:maxRetriesReached"

running_event :
    (st : IngestionStatus)
    → is_running_status st ≡ true
    → (ingestion_event st == given_up_event) ≡ false
running_event running h = refl
running_event reconnecting h = refl
running_event IngestionStatus.starting h = cc
running_event IngestionStatus.stopped h = cc
running_event IngestionStatus.error h = cc
running_event IngestionStatus.max_retries h = cc

module _ (repo : Repository Stream stream_key) (w : Wowza) (now : ℕ) where
  -- A synchronisation sends nothing, and its answer never says that the stream is live.
  sync_silent :
      (id : String) (s : Streams repo) (u : StreamResponse)
      → (sync_status_from_wowza repo w id s).1 ≡ ok u
      → ((sync_status_from_wowza repo w id s).0.sent ≡ s.sent)
        × ((sync_status_from_wowza repo w id s).0.ingestion ≡ s.ingestion)
        × (u.is_live_in_wowza ≡ false)
  unfolding sync_status_from_wowza
  sync_silent id s u h = ground arith

  -- When the status of a stream whose ingestion does not run is no longer the one last known, its
  -- subscribers and those of all streams hear of the change, also of one to active; the message
  -- says each time that the stream is not live.
  poll_stream_lem :
      (v : Stream) (g : Gateway repo) (u : StreamResponse) (previous : String)
      → (sync_status_from_wowza repo w v.id g.streams).1 ≡ ok u
      → get v.id g.last_known_status ≡ some previous
      → (previous == status_text u.status) ≡ false
      → is_running v.id g.streams.ingestion ≡ false
      → (poll_stream repo w now v g).streams.sent
        ≡ emit_stream_event "stream:statusChanged" v.id
            (stream_status (record {
              stream_id = v.id;
              stream_name = v.wowza_stream_name;
              previous_status = previous;
              current_status = status_text u.status;
              is_live_in_wowza = false;
              timestamp = now;
            }))
            g.streams.sent
  unfolding poll_stream announce_status announce_ingestion
  poll_stream_lem v g u previous h known new idle =
      let (silent, same, dead) = sync_silent v.id g.streams u h in
      ground (arith, silent, same, dead)

  announce_ingestion-heard :
      (v : Stream) (g : Gateway repo)
      → heard given_up_event (announce_ingestion repo now v g).streams.sent
        ≡ heard given_up_event g.streams.sent
  unfolding announce_ingestion get_status is_running emit_ingestion_status
  announce_ingestion-heard v g = elim (Option-cases (get v.id g.streams.ingestion.states)) [
    | inl e ↦ ground arith
    | inr (r, e) ↦ ground (arith, running_event (g.streams.ingestion.objects r).status)
  ]

  announce_status-heard :
      (v : Stream) (u : StreamResponse) (g : Gateway repo)
      → heard given_up_event (announce_status repo now v u g).streams.sent
        ≡ heard given_up_event g.streams.sent
  unfolding announce_status emit_stream_event
  announce_status-heard v u g = ground arith

  announce-heard :
      (v : Stream) (answer : Result StreamResponse) (g : Gateway repo)
      → heard given_up_event (announce repo now v answer g).streams.sent
        ≡ heard given_up_event g.streams.sent
  announce-heard v (err e) g = refl
  announce-heard v (ok u) g =
      announce_ingestion-heard v (announce_status repo now v u g) ∙ announce_status-heard v u g

  sync_sends_nothing :
      (id : String) (s : Streams repo) → (sync_status_from_wowza repo w id s).0.sent ≡ s.sent
  unfolding sync_status_from_wowza
  sync_sends_nothing id s = ground arith

  poll_stream-heard :
      (v : Stream) (g : Gateway repo)
      → heard given_up_event (poll_stream repo w now v g).streams.sent
        ≡ heard given_up_event g.streams.sent
  unfolding poll_stream
  poll_stream-heard v g =
      announce-heard v (sync_status_from_wowza repo w v.id g.streams).1
        (record g { streams = (sync_status_from_wowza repo w v.id g.streams).0 })
      ∙ ap (heard given_up_event) (sync_sends_nothing v.id g.streams)

  poll_each-heard :
      (vs : List Stream) (g : Gateway repo)
      → heard given_up_event (poll_each repo w now vs g).streams.sent
        ≡ heard given_up_event g.streams.sent
  unfolding poll_each
  poll_each-heard [] g = refl
  poll_each-heard (v ∷ vs) g =
      poll_each-heard vs (poll_stream repo w now v g) ∙ poll_stream-heard v g

  -- No round of the polling tells a client that the reconnections of a stream are used up, whatever
  -- the streams, their ingestion and the answers of Wowza are.
  pub poll_wowza_status-heard :
      (listed : Result (List Stream)) (g : Gateway repo)
      → heard given_up_event (poll_wowza_status repo w now listed g).streams.sent
        ≡ heard given_up_event g.streams.sent
  unfolding poll_wowza_status
  poll_wowza_status-heard (err e) g = refl
  poll_wowza_status-heard (ok listed) g = ground (arith, poll_each-heard listed g)
