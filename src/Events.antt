-- ===== src/Events.antt =====
-- src/modules/events. The entries of the audit log are not awaited by the service; they are written
-- where it starts them. The ids, the time and the number of an event's evidences are arguments.
pub mod Records
pub mod Links
pub mod Listing
use mediavault_backend.Prelude.{
  ℕ, String, Bool, true, false, not, ◌&&◌, Option, none, some, List, [], ◌∷◌, ◌++◌, map, ◌==◌,
  if◌then◌else◌, get_or, any, filter, Map, Action, ◌>>=◌, ◌>>◌, pure, throw, state, modify,
  or_throw, not_found, bad_request,
}
use mediavault_backend.Platform.Repository.{Repository, by_key}
use mediavault_backend.Audit.{AuditLog, Value, log, text}
use mediavault_backend.Gateway.Emissions.{Emission, info, stream, emit_alert}
use mediavault_backend.Backend.{User, user_id}
use mediavault_backend.Streams.Stream.{Stream, StreamStatus, stream_key}
use mediavault_backend.Events.Records.{
  CreateEventDto, Event, EventCreatedBy, EventResponse, EventStatus, EventTables, Events,
  StreamSummary, UpdateEventDto, closed, closes, event_key, open_event, or_kept, summary, to_dto,
  with_fields,
}

module _ (env : EventTables) where
  abbrev pub find_event : String → Events env → Option Event
  find_event id s = env.events.find_one (by_key event_key id) s.events

  abbrev pub find_stream : String → Events env → Option Stream
  find_stream id s = env.streams.find_one (by_key stream_key id) s.streams

  abbrev pub save_event : Event → Events env → Events env
  save_event e s = record s { events = env.events.save e s.events }

  abbrev pub log_event :
      String → String → Option String → Option (Map Value) → Events env → Events env
  log_event action id uid meta s = record s {
    audit =
        log
          (record {
            action = action;
            entity_type = some "event";
            entity_id = some id;
            user_id = uid;
            ip_address = none;
            metadata = meta;
          })
          s.audit;
  }

  abbrev pub alert : ℕ → String → String → String → Events env → Events env
  alert now uuid title message s = record s {
    sent =
        emit_alert
          (record {
            id = uuid;
            level = info;
            category = stream;
            title = title;
            message = message;
            stream_id = none;
            timestamp = now;
          })
          s.sent;
  }

  -- The streams found for the ids, if all are.
  unfoldable pub found_all : List String → Events env → Option (List Stream)
  found_all [] s = some []
  found_all (id ∷ ids) s =
      let rest = found_all ids s in
      elim (find_stream id s) [
        | none ↦ none
        | some v ↦ elim rest [ none ↦ none | some vs ↦ some (v ∷ vs) ]
      ]

  unfoldable pub resolve_streams : Option (List String) → Action (Events env) (List Stream)
  resolve_streams none = pure []
  resolve_streams (some ids) = do s ← state; or_throw (found_all ids s) bad_request

  unfoldable pub find_one : (String → ℕ) → String → Action (Events env) EventResponse
  find_one evidences id = do
    s ← state
    e ← or_throw (find_event id s) not_found
    modify (log_event "EVENT_VIEWED" id none none)
    pure (to_dto (evidences id) e)

  abbrev pub new_event : ℕ → String → CreateEventDto → User → List Stream → Event
  new_event now id dto user streams = record {
    id = id;
    title = dto.title;
    description = dto.description;
    status = get_or dto.status open_event;
    location = dto.location;
    metadata = dto.metadata;
    created_by = user;
    streams = streams;
    created_at = now;
    updated_at = now;
  }

  unfoldable pub create :
      (String → ℕ)
      → ℕ
      → String
      → String
      → CreateEventDto
      → String
      → Action (Events env) EventResponse
  create evidences now id uuid dto uid = do
    s ← state
    user ← or_throw (env.users.find_one (by_key user_id uid) s.users) not_found
    streams ← resolve_streams dto.stream_ids
    modify (save_event (new_event now id dto user streams))
    modify (log_event "EVENT_CREATED" id (some uid) none)
    modify (alert now uuid "Nuevo evento creado" dto.title)
    find_one evidences id

  -- `if (dto.streamIds !== undefined)`.
  abbrev relink : Option (List String) → Event → Action (Events env) Event
  relink none e = pure e
  relink (some ids) e = do
    streams ← resolve_streams (some ids)
    pure (record e { streams = streams })

  abbrev announce_close : ℕ → String → Bool → Event → Events env → Events env
  announce_close now uuid closing e s =
      if closing then alert now uuid "Evento cerrado" e.title s else s

  unfoldable pub update :
      (String → ℕ)
      → ℕ
      → String
      → String
      → UpdateEventDto
      → String
      → Action (Events env) EventResponse
  update evidences now uuid id dto uid = do
    s ← state
    e ← or_throw (find_event id s) not_found
    e' ← relink dto.stream_ids (with_fields dto e)
    modify (save_event e')
    modify (announce_close now uuid (closes e dto.status) e')
    modify (log_event "EVENT_UPDATED" id (some uid) none)
    find_one evidences id

  abbrev pub to_close : UpdateEventDto
  to_close = record {
    title = none;
    description = none;
    status = some closed;
    location = none;
    stream_ids = none;
    metadata = none;
  }

  unfoldable pub close :
      (String → ℕ) → ℕ → String → String → String → Action (Events env) EventResponse
  close evidences now uuid id uid = update evidences now uuid id to_close uid

  abbrev pub is_linked : String → List Stream → Bool
  is_linked id vs = any (λ v. v.id == id) vs

  unfoldable pub add_stream :
      (String → ℕ) → String → String → String → Action (Events env) EventResponse
  add_stream evidences id sid uid = do
    s ← state
    e ← or_throw (find_event id s) not_found
    v ← or_throw (find_stream sid s) not_found
    modify (λ s.
        if is_linked sid e.streams
        then s
        else save_event (record e { streams = e.streams ++ v ∷ [] }) s)
    modify (log_event "EVENT_STREAM_ADDED" id (some uid) (some (("streamId", text sid) ∷ [])))
    find_one evidences id

  unfoldable pub remove_stream : String → String → String → Action (Events env) (Unit {0})
  remove_stream id sid uid = do
    s ← state
    e ← or_throw (find_event id s) not_found
    modify (save_event (record e { streams = filter (λ v. not (v.id == sid)) e.streams }))
    modify (log_event "EVENT_STREAM_REMOVED" id (some uid) (some (("streamId", text sid) ∷ [])))

  unfoldable pub remove : String → String → Action (Events env) (Unit {0})
  remove id uid = do
    s ← state
    e ← or_throw (find_event id s) not_found
    modify (λ s. record s { events = env.events.delete (by_key event_key e.id) s.events })
    modify (log_event "EVENT_DELETED" id (some uid) none)
