-- ===== src/Streams/Lifecycle.antt =====
-- What a caller of src/modules/streams/streams.service.ts sees: which calls leave everything as it
-- was, and how the stored status follows the ingestion.
use mediavault_backend.Prelude.{
  ℕ, String, true, false, Option, none, some, ◌∷◌, ◌≡◌, arith, get, has, ok, err, HttpError,
  not_found, conflict, Option-cases, Bool-cases, inl, inr, eq_refl,
}
use mediavault_backend.Ingestion.Args.{WowzaSettings}
use mediavault_backend.Ingestion.Service.{is_running, get_status, sigterm}
use mediavault_backend.Ingestion.Service as Ingestion
use mediavault_backend.Ingestion.Lifecycle.{start_ingestion-Started, stop_ingestion-Stopped}
use mediavault_backend.Platform.Repository.{Repository, by_key}
use mediavault_backend.Platform.Repository.Laws.{find_one-key, find_one-deleted}
use mediavault_backend.Streams.Stream.{Stream, stream_key, inactive, connecting}
use mediavault_backend.Streams.Requests.{CreateStreamDto, UpdateStreamDto, Wowza}
use mediavault_backend.Streams.Rows.{same_target, is_rtsp, non_empty, config_of, new_stream}
use mediavault_backend.Streams.Service.{
  Streams, find_stream, is_stream, create, update, remove, start_ingestion, stop_ingestion,
}

module _ (repo : Repository Stream stream_key) where
  -- A start that throws leaves the table, the ingestion, the audit log and the clients as they were.
  start_ingestion_unchanged :
      (ws : WowzaSettings) (now : ℕ) (pid : Option ℕ) (id uid : String) (e : HttpError)
      (s : Streams repo)
      → (start_ingestion repo ws now pid id uid s).1 ≡ err e
      → (start_ingestion repo ws now pid id uid s).0 ≡ s
  unfolding start_ingestion Ingestion.start_ingestion
  start_ingestion_unchanged ws now pid id uid e s h = ground arith

  -- After a start that succeeds the stream is an RTSP stream stored as connecting, it runs in the
  -- ingestion service, and every update of it is a conflict that changes nothing.
  start_ingestion_lem :
      (ws : WowzaSettings) (now : ℕ) (pid : Option ℕ) (id uid : String) (r : ℕ) (s : Streams repo)
      → (start_ingestion repo ws now pid id uid s).1 ≡ ok r
      → let t = (start_ingestion repo ws now pid id uid s).0 in
        (v : Stream) × (find_stream repo id s ≡ some v)
        × (is_rtsp v.protocol ≡ true)
        × (find_stream repo id t ≡ some (record v { status = connecting }))
        × (is_running id t.ingestion ≡ true)
        × ((w : Wowza) (dto : UpdateStreamDto) (uid' : String)
            → update repo w id dto uid' t ≡ (t, err conflict))
  unfolding start_ingestion update
  start_ingestion_lem ws now pid id uid r s h = elim (Option-cases (find_stream repo id s)) [
    | inl e ↦ absurd (ground arith)
    | inr (v, e) ↦ elim (Option-cases (non_empty v.source_url)) [
      | inl e' ↦ absurd (ground arith)
      | inr (url, e') ↦
          let same = find_one-key repo s.streams id v e in
          let stored = repo.find_one-save id (record v { status = connecting }) s.streams in
          let begun =
            start_ingestion-Started ws now pid (config_of v url) s.ingestion r (ground arith) in
          let running = rw same at begun.live in
          (
            v,
            e,
            ground arith,
            ground (arith, stored, same, eq_refl id),
            ground (arith, running),
            λ w dto uid'. ground (arith, stored, same, eq_refl id),
          )
    ]
  ]

  -- When the reconnections of a stream are used up its process is gone while its row still says
  -- connecting: it can be neither stopped nor modified, and both calls change nothing.
  given_up_stuck :
      (w : Wowza) (now : ℕ) (id uid : String) (dto : UpdateStreamDto) (v : Stream)
      (s : Streams repo)
      → find_stream repo id s ≡ some v
      → v.status ≡ connecting
      → has id s.ingestion.processes ≡ false
      → (stop_ingestion repo now id uid s ≡ (s, err not_found))
        × (update repo w id dto uid s ≡ (s, err conflict))
  unfolding stop_ingestion update Ingestion.stop_ingestion
  given_up_stuck w now id uid dto v s found busy gone = (ground arith, ground arith)

  -- A stop that succeeds sends SIGTERM to the process, and leaves a stored stream inactive and not
  -- running, so that it can be modified.
  stop_ingestion_lem :
      (now : ℕ) (id uid : String) (v : Stream) (s : Streams repo)
      → (stop_ingestion repo now id uid s).1 ≡ ok tt
      → find_stream repo id s ≡ some v
      → let t = (stop_ingestion repo now id uid s).0 in
        ((p : ℕ) × (get id s.ingestion.processes ≡ some p)
          × (t.ingestion.signals ≡ (p, sigterm) ∷ s.ingestion.signals))
        × (find_stream repo id t ≡ some (record v { status = inactive }))
        × (is_running id t.ingestion ≡ false)
  unfolding stop_ingestion
  stop_ingestion_lem now id uid v s h found =
      let stopped = stop_ingestion-Stopped id s.ingestion (ground arith) in
      let same = find_one-key repo s.streams id v found in
      let stored = repo.find_one-save id (record v { status = inactive }) s.streams in
      (
        (stopped.process.0, stopped.process.1, ground (arith, stopped.process.2)),
        ground (arith, stored, same, eq_refl id),
        ground (arith, stopped.idle),
      )

  -- After a removal that succeeds the stream is not found, and it does not run in the ingestion
  -- service.
  remove_lem :
      (id uid : String) (s : Streams repo)
      → (remove repo id uid s).1 ≡ ok tt
      → let t = (remove repo id uid s).0 in
        (find_stream repo id t ≡ none) × (is_running id t.ingestion ≡ false)
  unfolding remove
  remove_lem id uid s h = elim (Bool-cases (is_running id s.ingestion)) [
    | inl on ↦
        let stopped = stop_ingestion-Stopped id s.ingestion (ground arith) in
        (
          ground (
            arith,
            find_one-deleted repo (by_key stream_key id) (by_key stream_key id) s.streams
                (λ r e. e),
          ),
          ground (arith, stopped.idle),
        )
    | inr off ↦ (
      ground (
        arith,
        find_one-deleted repo (by_key stream_key id) (by_key stream_key id) s.streams (λ r e. e),
      ),
      ground arith,
    )
  ]

  -- The stored row is met by the next query for its application and name.
  new_taken :
      (now : ℕ) (id : String) (dto : CreateStreamDto) (uid : String) (t : repo.Table)
      → is_stream (
          repo.find_one
            (same_target dto.wowza_app_name dto.wowza_stream_name)
            (repo.save (new_stream now id dto uid) t))
        ≡ true
  new_taken now id dto uid t =
      elim (Option-cases (
        repo.find_one (same_target dto.wowza_app_name dto.wowza_stream_name)
          (repo.save (new_stream now id dto uid) t))) [
            | inl e ↦ absurd (
                ground (
                  arith,
                  repo.find_one-complete (same_target dto.wowza_app_name dto.wowza_stream_name) _ id
                      (new_stream now id dto uid) e
                      (ground
                        (arith, repo.find_one-save id (new_stream now id dto uid) t, eq_refl id)),
                  eq_refl dto.wowza_app_name,
                  eq_refl dto.wowza_stream_name,
                ))
            | inr (v, e) ↦ rw e
          ]

  -- A second stream for the same application and name is a conflict that changes nothing, also when
  -- the first was stored but its answer failed for want of a Wowza server.
  create_again :
      (now now' : ℕ) (id id' : String) (w w' : Wowza) (dto dto' : CreateStreamDto)
      (uid uid' : String) (s : Streams repo)
      → repo.find_one (same_target dto.wowza_app_name dto.wowza_stream_name) s.streams ≡ none
      → dto'.wowza_app_name ≡ dto.wowza_app_name
      → dto'.wowza_stream_name ≡ dto.wowza_stream_name
      → let t = (create repo now id w dto uid s).0 in
        (find_stream repo id t ≡ some (new_stream now id dto uid))
        × (create repo now' id' w' dto' uid' t ≡ (t, err conflict))
  unfolding create
  create_again now now' id id' w w' dto dto' uid uid' s fresh app name =
      let taken = new_taken now id dto uid s.streams in
      (
        ground (arith, repo.find_one-save id (new_stream now id dto uid) s.streams, eq_refl id),
        ground (arith, app, name, taken),
      )
