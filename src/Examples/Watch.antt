-- ===== src/Examples/Watch.antt =====
-- The theorems on the audit log's export, on the clients of the gateway and on the anomalies.
use mediavault_backend.Prelude.{
  String, Bool, true, false, ◌&&◌, none, some, List, [], ◌∷◌, ◌==◌, ◌≡◌, refl, if◌then◌else◌, ok,
  err, get, ltb, length, map, bad_request, internal_error,
}
use mediavault_backend.Platform.SocketRooms.{SocketRooms}
use mediavault_backend.Gateway.Clients.{
  HandshakeUser, Clients, handle_connection, handle_subscribe_stream,
}
use mediavault_backend.Gateway.Clients.Membership.{Step, Reach, InSync, Reach-InSync}
use mediavault_backend.Security.Anomalies.{LoginEntry, user_ips, new_ips}
use mediavault_backend.Security.Addresses.{
  reports_on, report_of, distinct, addresses, new_ips-distinct,
}
use mediavault_backend.Audit.Csv.{AuditRow, export_to_csv, csv_max_rows, header, ◌<>◌}
use mediavault_backend.Audit.Reading.{read_records, fields_of, export_to_csv-read}

abbrev rooms : SocketRooms
rooms = record {
  Rooms = String → String → Bool;
  is_in = λ k r s. s k r;
  join = λ i q s k r. if i == k && q == r then true else s k r;
  leave = λ i q s k r. if i == k && q == r then false else s k r;
  drop = λ i s k r. if i == k then false else s k r;
  is_in-join = λ k r i q s. refl;
  is_in-leave = λ k r i q s. refl;
  is_in-drop = λ k r i s. refl;
}

abbrev empty : Clients rooms
empty = record { connected_clients = []; rooms = λ k r. false; messages = [] }

abbrev guard : HandshakeUser
guard = record { user_id = "u1"; email = "ana@x"; role = "operator" }

abbrev entered : Clients rooms
entered = handle_connection rooms 1 "k1" (some guard) (err internal_error) (ok 2) (ok 1) empty

abbrev watching : Clients rooms
watching = handle_subscribe_stream rooms 2 "k1" "s1" none entered

watches : Reach rooms empty watching
watches =
    Reach.later empty entered watching
      (Step.connects 1 "k1" (some guard) (err internal_error) (ok 2) (ok 1) empty (λ sid. refl)
        (unfold get in refl))
      (Reach.later entered watching watching (Step.subscribes_to 2 "k1" "s1" none entered)
        (Reach.done watching))

empty-InSync : InSync rooms empty
unfolding get
empty-InSync = record { hears_all = λ k c e. cc; hears_streams = λ k sid c e. cc }

Reach-InSync_example : InSync rooms watching
Reach-InSync_example = Reach-InSync rooms empty watching watches empty-InSync

abbrev rows : List AuditRow
rows =
    record {
      id = "1";
      created_at = "2024-01-02T00:00:00.000Z";
      user_id = none;
      action = "LOGIN";
      entity_type = some "User";
      entity_id = none;
      ip_address = some "10.0.0.1";
      metadata = some "{\"name\":\"A, B\"}";
    }
    ∷ []

export_to_csv-read_example :
    (body : String) × (export_to_csv rows
      ≡ (if ltb csv_max_rows (length rows) then err bad_request else ok (header <> body)))
    × (read_records (length rows) body ≡ some (map fields_of rows))
export_to_csv-read_example = export_to_csv-read rows refl

abbrev login_from : String → LoginEntry
login_from ip = record { user_id = some "u1"; ip_address = some ip }

abbrev logins : List LoginEntry
logins =
    login_from "10.0.0.1"
    ∷ login_from "10.0.0.2"
    ∷ login_from "10.0.0.1"
    ∷ record { user_id = none; ip_address = some "10.0.0.3" }
    ∷ []

new_ips-distinct_example :
    reports_on "u1" (new_ips 5 (user_ips logins []))
    ≡ report_of 5 "u1" (distinct (addresses "u1" logins))
new_ips-distinct_example = new_ips-distinct 5 logins "u1"
