-- ===== src/Events/Links.antt =====
-- The streams of an event and its closing, in src/modules/events/events.service.ts.
use mediavault_backend.Prelude.{
  ℕ, suc, String, true, false, not, none, some, List, [], ◌∷◌, ◌++◌, ◌==◌, ◌≡◌, refl, arith,
  if◌then◌else◌, any, filter, length, err, bad_request, Bool-cases, inl, inr, eq_iff, eq_refl, ap,
}
use mediavault_backend.Platform.Repository.{by_key}
use mediavault_backend.Platform.Repository.Laws.{find_one-key}
use mediavault_backend.Streams.Stream.{Stream}
use mediavault_backend.Backend.{User, user_id}
use mediavault_backend.Gateway.Emissions.{emit_alert}
use mediavault_backend.Events.{
  find_event, find_stream, found_all, resolve_streams, find_one, create, update, close, is_linked,
  add_stream, remove_stream,
}
use mediavault_backend.Events.Records.{
  EventTables, Events, Event, CreateEventDto, UpdateEventDto, closed, is_open,
}

drop_absent :
    (id : String) (vs : List Stream)
    → any (λ v. v.id == id) vs ≡ false
    → filter (λ v. not (v.id == id)) vs ≡ vs
drop_absent id [] h = refl
drop_absent id (v ∷ vs) h = ground (arith, drop_absent id vs)

drop_last :
    (v : Stream) (id : String) (vs : List Stream)
    → v.id ≡ id
    → any (λ v. v.id == id) vs ≡ false
    → filter (λ w. not (w.id == id)) (vs ++ v ∷ []) ≡ vs
drop_last v id [] e h = ground (arith, eq_iff v.id id)
drop_last v id (w ∷ vs) e h = ground (arith, drop_last v id vs e)

linked_last :
    (v : Stream) (id : String) (vs : List Stream)
    → v.id ≡ id
    → any (λ v. v.id == id) (vs ++ v ∷ []) ≡ true
linked_last v id [] e = ground (arith, eq_iff v.id id)
linked_last v id (w ∷ vs) e = ground (arith, linked_last v id vs e)

module _ (env : EventTables) (evidences : String → ℕ) (s : Events env) (id sid uid : String)
    (e : Event) (v : Stream) (found : find_event env id s ≡ some e)
    (there : find_stream env sid s ≡ some v) where
  -- A stream that is linked to an event stays linked, and to link it once more leaves the table of
  -- events as it is.
  add_stream_again :
      let t = (add_stream env evidences id sid uid s).0 in
      (e' : Event) × (find_event env id t ≡ some e')
      × (is_linked env sid e'.streams ≡ true)
      × ((add_stream env evidences id sid uid t).0.events ≡ t.events)
  unfolding add_stream find_one
  add_stream_again =
      let same = find_one-key env.events s.events id e found in
      let linked = record e { streams = e.streams ++ v ∷ [] } in
      let stored = env.events.find_one-save id linked s.events in
      let last = linked_last v sid e.streams (find_one-key env.streams s.streams sid v there) in
      elim (Bool-cases (is_linked env sid e.streams)) [
        | inl old ↦ (e, ground arith, old, ground arith)
        | inr new ↦ (
          linked,
          ground (arith, stored, same, eq_refl id),
          last,
          ground (arith, stored, same, last, eq_refl id),
        )
      ]

  -- To link a stored stream that was not linked to a stored event, and then to unlink it, gives
  -- the event its streams back in their order.
  pub remove_stream-add_stream :
      is_linked env sid e.streams ≡ false
      → let t = (add_stream env evidences id sid uid s).0 in
        find_event env id (remove_stream env id sid uid t).0 ≡ some e
  unfolding add_stream remove_stream find_one
  remove_stream-add_stream h =
      let same = find_one-key env.events s.events id e found in
      let linked = record e { streams = e.streams ++ v ∷ [] } in
      let stored = env.events.find_one-save id linked s.events in
      let restored = env.events.find_one-save id e (env.events.save linked s.events) in
      let last = drop_last v sid e.streams (find_one-key env.streams s.streams sid v there) h in
      ground (arith, stored, restored, same, last, eq_refl id)

module _ (env : EventTables) (evidences : String → ℕ) (now : ℕ) (uuid id uid : String)
    (s : Events env) (e : Event) (found : find_event env id s ≡ some e) where
  -- After the closing of a stored event the event is closed; the clients were told of it if it was
  -- open and not otherwise, and a second closing tells them nothing.
  close_once :
      let t = (close env evidences now uuid id uid s).0 in
      (find_event env id t ≡ some (record e { status = closed }))
      × (length t.sent ≡ (if is_open e.status then suc (length s.sent) else length s.sent))
      × ((close env evidences now uuid id uid t).0.sent ≡ t.sent)
  unfolding close update find_one emit_alert
  close_once =
      let same = find_one-key env.events s.events id e found in
      let shut = record e { status = closed } in
      let stored = env.events.find_one-save id shut s.events in
      (
        ground (arith, stored, same, eq_refl id),
        ground (arith, stored, same, eq_refl id),
        ground (arith, stored, same, eq_refl id),
      )

missing_stream :
    (env : EventTables) (s : Events env) (ids : List String) (sid : String)
    → any (λ i. i == sid) ids ≡ true
    → find_stream env sid s ≡ none
    → found_all env ids s ≡ none
unfolding found_all
missing_stream env s [] sid m h = cc
missing_stream env s (i ∷ ids) sid m h = ground (
  arith,
  missing_stream env s ids sid,
  eq_iff i sid,
  ap (λ (j : String). find_stream env j s) {x = i} {y = sid},
)

-- A creation by a stored user that names a stream which is not there is a bad request, and changes
-- nothing; so is an update of a stored event.
missing_stream_lem :
    (env : EventTables) (evidences : String → ℕ) (now : ℕ) (id uuid eid uid sid : String)
    (dto : CreateEventDto) (change : UpdateEventDto) (ids : List String) (s : Events env) (u : User)
    (e : Event)
    → env.users.find_one (by_key user_id uid) s.users ≡ some u
    → find_event env eid s ≡ some e
    → dto.stream_ids ≡ some ids
    → change.stream_ids ≡ some ids
    → any (λ i. i == sid) ids ≡ true
    → find_stream env sid s ≡ none
    → (create env evidences now id uuid dto uid s ≡ (s, err bad_request))
      × (update env evidences now uuid eid change uid s ≡ (s, err bad_request))
unfolding create update resolve_streams
missing_stream_lem env evidences now id uuid eid uid sid dto change ids s u e user event named
      named' m h =
    let missing = missing_stream env s ids sid m h in
    (ground (arith, missing), ground (arith, missing))
