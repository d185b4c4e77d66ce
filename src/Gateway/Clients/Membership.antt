-- ===== src/Gateway/Clients/Membership.antt =====
-- The rooms of the clients of src/modules/gateway/streaming.gateway.ts, over every run of
-- connections, subscriptions and disconnections.
use Prim.Native.Char.{code}
use Prim.Native.String.append
use text.Mathlib.TextLemmas.{append_cancel_left}
use mediavault_backend.Prelude.{
  ℕ, String, true, false, not, Option, none, some, List, [], ◌∷◌, ◌++◌, ◌==◌, ◌≡◌, refl, arith,
  if◌then◌else◌, any, filter, Map, get, get-set, get-delete, Result, eq_iff, Option-cases,
  Bool-cases, inl, inr, ap,
}
use mediavault_backend.Platform.SocketRooms.{SocketRooms}
use mediavault_backend.Gateway.Emissions.{stream_room}
use mediavault_backend.Wowza.{ServerStatus}
use mediavault_backend.Gateway.Clients.{
  HandshakeUser, ConnectedClient, CurrentStream, Clients, subscribes, with_stream, without_stream,
  change_client, new_client, tell_status, handle_connection, handle_disconnect,
  handle_subscribe_stream, handle_unsubscribe_stream, handle_subscribe_all,
}

abbrev first_code : String → ℕ
first_code String.[] = 0
first_code (String.◌∷◌ c s) = code c

room_first : (sid : String) → first_code (stream_room sid) ≡ 115
room_first sid = ap first_code (append.cons "s" "tream:" sid)

rooms_apart : (r sid : String) → first_code r ≡ 97 → (r == stream_room sid) ≡ false
rooms_apart r sid h =
    ground (
      arith,
      room_first sid,
      eq_iff r (stream_room sid),
      ap first_code {x = r} {y = stream_room sid},
    )

same_room : (a b : String) → (stream_room a == stream_room b) ≡ (a == b)
same_room a b = ground (
  arith,
  eq_iff (stream_room a) (stream_room b),
  eq_iff a b,
  append_cancel_left "stream:" a b,
  ap stream_room {x = a} {y = b},
)

any-last :
    (sid k : String) (l : List String)
    → any (λ i. i == k) (l ++ sid ∷ []) ≡ (if sid == k then true else any (λ i. i == k) l)
any-last sid k [] = ground arith
any-last sid k (i ∷ l) = ground (arith, any-last sid k l)

any-without :
    (sid k : String) (l : List String)
    → any (λ i. i == k) (filter (λ i. not (i == sid)) l)
      ≡ (if sid == k then false else any (λ i. i == k) l)
any-without sid k [] = ground arith
any-without sid k (i ∷ l) =
    ground (arith, any-without sid k l, eq_iff sid k, eq_iff i sid, eq_iff i k)

subscribes-with :
    (sid k : String) (c : ConnectedClient)
    → subscribes k (with_stream sid c) ≡ (if sid == k then true else subscribes k c)
subscribes-with sid k c = ground (
  arith,
  any-last sid k c.subscribed_streams,
  eq_iff sid k,
  ap (λ (j : String). any (λ i. i == j) c.subscribed_streams) {x = sid} {y = k},
)

module _ (rm : SocketRooms) where
  -- A client of the map is in the room of all clients, and in the room of a stream when and only when
  -- its set has the stream.
  pub record InSync (s : Clients rm) : Type 0 where
    pub hears_all :
        (k : String) (c : ConnectedClient)
        → get k s.connected_clients ≡ some c
        → rm.is_in k "all" s.rooms ≡ true
    pub hears_streams :
        (k sid : String) (c : ConnectedClient)
        → get k s.connected_clients ≡ some c
        → rm.is_in k (stream_room sid) s.rooms ≡ subscribes sid c

  -- What the gateway does at an event of a socket. The id of a socket that connects is in no room of a
  -- stream.
  pub data Step : Clients rm → Clients rm → Type 0 where
    connects :
        (now : ℕ) (id : String) (u : Option HandshakeUser) (w : Result ServerStatus)
        (all active : Result ℕ) (s : Clients rm)
        → ((sid : String) → rm.is_in id (stream_room sid) s.rooms ≡ false)
        → get id s.connected_clients ≡ none
        → Step s (handle_connection rm now id u w all active s)
    disconnects : (id : String) (s : Clients rm) → Step s (handle_disconnect rm id s)
    subscribes_to :
        (now : ℕ) (id sid : String) (current : Option CurrentStream) (s : Clients rm)
        → Step s (handle_subscribe_stream rm now id sid current s)
    unsubscribes_from :
        (id sid : String) (s : Clients rm) → Step s (handle_unsubscribe_stream rm id sid s)
    subscribes_to_all : (id : String) (s : Clients rm) → Step s (handle_subscribe_all rm id s)

  pub data Reach : Clients rm → Clients rm → Type 0 where
    done : (s : Clients rm) → Reach s s
    later : (s t u : Clients rm) → Step s t → Reach t u → Reach s u

  connects-InSync :
      (now : ℕ) (id : String) (u : Option HandshakeUser) (w : Result ServerStatus)
      (all active : Result ℕ) (s : Clients rm)
      → ((sid : String) → rm.is_in id (stream_room sid) s.rooms ≡ false)
      → get id s.connected_clients ≡ none
      → InSync s
      → InSync (handle_connection rm now id u w all active s)
  unfolding handle_connection
  connects-InSync now id none w all active s fresh absent v = record {
    hears_all = λ k c e. ground (
      arith,
      v.hears_all k c e,
      rm.is_in-drop k "all" id s.rooms,
      eq_iff id k,
      ap (λ (j : String). get j s.connected_clients) {x = id} {y = k},
    );
    hears_streams = λ k sid c e. ground (
      arith,
      v.hears_streams k sid c e,
      rm.is_in-drop k (stream_room sid) id s.rooms,
      eq_iff id k,
      ap (λ (j : String). get j s.connected_clients) {x = id} {y = k},
    );
  }
  connects-InSync now id (some u) w all active s fresh absent v = record {
    hears_all = λ k c e. ground (
      arith,
      v.hears_all k c,
      get-set id k (new_client now u) s.connected_clients,
      rm.is_in-join k "all" id "all" s.rooms,
    );
    hears_streams = λ k sid c e. ground (
      arith,
      v.hears_streams k sid c,
      get-set id k (new_client now u) s.connected_clients,
      rm.is_in-join k (stream_room sid) id "all" s.rooms,
      rooms_apart "all" sid refl,
      fresh sid,
      eq_iff id k,
      ap (λ (j : String). rm.is_in j (stream_room sid) s.rooms) {x = id} {y = k},
    );
  }

  disconnects-InSync :
      (id : String) (s : Clients rm) → InSync s → InSync (handle_disconnect rm id s)
  unfolding handle_disconnect
  disconnects-InSync id s v = record {
    hears_all = λ k c e. ground (
      arith,
      v.hears_all k c,
      get-delete id k s.connected_clients,
      rm.is_in-drop k "all" id s.rooms,
    );
    hears_streams = λ k sid c e. ground (
      arith,
      v.hears_streams k sid c,
      get-delete id k s.connected_clients,
      rm.is_in-drop k (stream_room sid) id s.rooms,
    );
  }

  get-change :
      (id k : String) (f : ConnectedClient → ConnectedClient) (m : Map ConnectedClient)
      (c : ConnectedClient)
      → get k (change_client id f m) ≡ some c
      → (d : ConnectedClient) × (get k m ≡ some d) × (c ≡ (if id == k then f d else d))
  get-change id k f m c e = elim (Option-cases (get id m)) [
    | inl absent ↦ (
      c,
      ground arith,
      ground (arith, eq_iff id k, ap (λ (j : String). get j m) {x = id} {y = k}),
    )
    | inr (d, found) ↦ elim (Bool-cases (id == k)) [
      | inl same ↦ (
        d,
        ground (arith, eq_iff id k, ap (λ (j : String). get j m) {x = id} {y = k}),
        ground (arith, get-set id k (f d) m),
      )
      | inr other ↦ (c, ground (arith, get-set id k (f d) m), ground arith)
    ]
  ]

  told :
      (now : ℕ) (id sid : String) (current : Option CurrentStream) (s : Clients rm)
      → InSync s
      → InSync (tell_status rm now id sid current s)
  told now id sid none s v = v
  told now id sid (some x) s v = record { hears_all = v.hears_all; hears_streams = v.hears_streams }

  subscribes_to-InSync :
      (now : ℕ) (id sid : String) (current : Option CurrentStream) (s : Clients rm)
      → InSync s
      → InSync (handle_subscribe_stream rm now id sid current s)
  unfolding handle_subscribe_stream
  subscribes_to-InSync now id sid current s v = told now id sid current _ (record {
    hears_all = λ k c e.
        let (d, found, changed) = get-change id k (with_stream sid) s.connected_clients c e in
        ground (arith, v.hears_all k d found, rm.is_in-join k "all" id (stream_room sid) s.rooms);
    hears_streams = λ k j c e.
        let (d, found, changed) = get-change id k (with_stream sid) s.connected_clients c e in
        ground (
          arith,
          v.hears_streams k j d found,
          changed,
          ap (subscribes j) changed,
          subscribes-with sid j d,
          same_room sid j,
          rm.is_in-join k (stream_room j) id (stream_room sid) s.rooms,
        );
  })

  unsubscribes_from-InSync :
      (id sid : String) (s : Clients rm) → InSync s → InSync (handle_unsubscribe_stream rm id sid s)
  unfolding handle_unsubscribe_stream
  unsubscribes_from-InSync id sid s v = record {
    hears_all = λ k c e.
        let (d, found, changed) = get-change id k (without_stream sid) s.connected_clients c e in
        ground (
          arith,
          v.hears_all k d found,
          rm.is_in-leave k "all" id (stream_room sid) s.rooms,
          rooms_apart "all" sid refl,
          eq_iff (stream_room sid) "all",
          eq_iff "all" (stream_room sid),
        );
    hears_streams = λ k j c e.
        let (d, found, changed) = get-change id k (without_stream sid) s.connected_clients c e in
        ground (
          arith,
          v.hears_streams k j d found,
          changed,
          ap (subscribes j) changed,
          any-without sid j d.subscribed_streams,
          same_room sid j,
          rm.is_in-leave k (stream_room j) id (stream_room sid) s.rooms,
        );
  }

  subscribes_to_all-InSync :
      (id : String) (s : Clients rm) → InSync s → InSync (handle_subscribe_all rm id s)
  unfolding handle_subscribe_all
  subscribes_to_all-InSync id s v = record {
    hears_all =
        λ k c e. ground (arith, v.hears_all k c e, rm.is_in-join k "all" id "all_streams" s.rooms);
    hears_streams = λ k sid c e. ground (
      arith,
      v.hears_streams k sid c e,
      rooms_apart "all_streams" sid refl,
      rm.is_in-join k (stream_room sid) id "all_streams" s.rooms,
    );
  }

  Step-InSync : (s t : Clients rm) → Step s t → InSync s → InSync t
  Step-InSync _ _ (connects now id u w all active s fresh absent) v =
      connects-InSync now id u w all active s fresh absent v
  Step-InSync _ _ (disconnects id s) v = disconnects-InSync id s v
  Step-InSync _ _ (subscribes_to now id sid current s) v =
      subscribes_to-InSync now id sid current s v
  Step-InSync _ _ (unsubscribes_from id sid s) v = unsubscribes_from-InSync id sid s v
  Step-InSync _ _ (subscribes_to_all id s) v = subscribes_to_all-InSync id s v

  -- In every run of connections, subscriptions and disconnections from a state with this property,
  -- in which a socket that connects is new and in no room of a stream, a connected client is in
  -- the room of a stream, and so hears of it, when and only when its set of subscriptions has the
  -- stream; it is in the room of all clients.
  pub Reach-InSync : (s t : Clients rm) → Reach s t → InSync s → InSync t
  Reach-InSync _ _ (done s) v = v
  Reach-InSync _ _ (later s t u step rest) v = Reach-InSync t u rest (Step-InSync s t step v)
