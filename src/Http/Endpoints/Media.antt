-- ===== src/Http/Endpoints/Media.antt =====
-- The controllers of src/modules/streams, ingestion, wowza and health, and of src/wowza-servers.
use mediavault_backend.Prelude.{some, [], ◌∷◌}
use mediavault_backend.Http.Request.{get, post, put, patch, delete}
use mediavault_backend.Http.Route.{
  text, param, uuid, body, query, user_id, user_session, client_ip, req_ip, of_param, query_field,
  constant, jwt_auth_guard, endpoint, allow, open_to_all, answers, audited, Controller, controller,
  admins, managers, staff, everyone,
}

abbrev pub streams_controller : Controller
streams_controller = controller "streams" (
    (allow everyone
      (endpoint get [] "StreamsController.findAll" "StreamsService.findAll" (query ∷ [])))
    ∷ (allow managers (
        answers 201 (
          endpoint post [] "StreamsController.create" "StreamsService.create"
            (body ∷ user_id ∷ []))))
    ∷ (allow everyone (
        audited "STREAM_VIEWED" "Stream" (
          endpoint get (uuid "id" ∷ []) "StreamsController.findOne" "StreamsService.findOne"
            (of_param "id" ∷ []))))
    ∷ (allow managers (
        endpoint patch (uuid "id" ∷ []) "StreamsController.update" "StreamsService.update"
          (of_param "id" ∷ body ∷ user_id ∷ [])))
    ∷ (allow admins (
        answers 204 (
          endpoint delete (uuid "id" ∷ []) "StreamsController.remove" "StreamsService.remove"
            (of_param "id" ∷ user_id ∷ []))))
    ∷ (allow managers (
        endpoint post (uuid "id" ∷ text "start-ingestion" ∷ []) "StreamsController.startIngestion"
          "StreamsService.startIngestion" (of_param "id" ∷ user_id ∷ [])))
    ∷ (allow managers (
        answers 204 (
          endpoint post (uuid "id" ∷ text "stop-ingestion" ∷ []) "StreamsController.stopIngestion"
            "StreamsService.stopIngestion" (of_param "id" ∷ user_id ∷ []))))
    ∷ (allow everyone (
        endpoint get (uuid "id" ∷ text "playback-url" ∷ []) "StreamsController.getPlaybackUrl"
          "StreamsService.getPlaybackUrl" (of_param "id" ∷ user_session ∷ client_ip ∷ [])))
    ∷ (allow managers (
        endpoint post (uuid "id" ∷ text "sync-status" ∷ []) "StreamsController.syncStatus"
          "StreamsService.syncStatusFromWowza" (of_param "id" ∷ [])))
    ∷ (allow staff (
        endpoint get (uuid "id" ∷ text "ingestion-status" ∷ [])
          "StreamsController.getIngestionStatus" "StreamsService.getIngestionStatus"
          (of_param "id" ∷ [])))
    ∷ [])

abbrev pub ingestion_controller : Controller
ingestion_controller = controller "ingestion" (
    (allow managers (
      endpoint post (text "start" ∷ []) "IngestionController.startIngestion"
        "IngestionService.startIngestion" (body ∷ [])))
    ∷ (allow managers (
        answers 204 (
          endpoint post (param "streamId" ∷ text "stop" ∷ []) "IngestionController.stopIngestion"
            "IngestionService.stopIngestion" (of_param "streamId" ∷ []))))
    ∷ (allow staff
        (endpoint get [] "IngestionController.getSummary" "IngestionService.getSummary" []))
    ∷ (allow staff (
        endpoint get (param "streamId" ∷ []) "IngestionController.getStatus"
          "IngestionService.getStatus" (of_param "streamId" ∷ [])))
    ∷ (allow managers (
        endpoint post (param "streamId" ∷ text "restart" ∷ [])
          "IngestionController.restartIngestion" "IngestionService.restartIngestion"
          (of_param "streamId" ∷ [])))
    ∷ [])

abbrev pub wowza_controller : Controller
wowza_controller = controller "wowza" (
    (endpoint get (text "status" ∷ []) "WowzaController.getStatus" "WowzaService.getServerStatus"
      [])
    ∷ (allow managers (
        endpoint get (text "applications" ∷ []) "WowzaController.getApplications"
          "WowzaService.getApplications" []))
    ∷ (allow managers (
        endpoint get (text "applications" ∷ param "appName" ∷ []) "WowzaController.getApplication"
          "WowzaService.getApplication" (of_param "appName" ∷ [])))
    ∷ (allow staff (
        endpoint get (text "applications" ∷ param "appName" ∷ text "streams" ∷ [])
          "WowzaController.getStreams" "WowzaService.getIncomingStreams" (of_param "appName" ∷ [])))
    ∷ (allow staff (
        endpoint get
          (text "applications" ∷ param "appName" ∷ text "streams" ∷ param "streamName" ∷ [])
          "WowzaController.getStream" "WowzaService.getIncomingStream"
          (of_param "appName" ∷ of_param "streamName" ∷ [])))
    ∷ (allow managers (
        answers 204 (
          endpoint post
            (text "applications"
              ∷ param "appName"
              ∷ text "streams"
              ∷ param "streamName"
              ∷ text "connect"
              ∷ [])
            "WowzaController.connectStream" "WowzaService.connectStream"
            (of_param "appName" ∷ of_param "streamName" ∷ []))))
    ∷ (allow managers (
        answers 204 (
          endpoint post
            (text "applications"
              ∷ param "appName"
              ∷ text "streams"
              ∷ param "streamName"
              ∷ text "disconnect"
              ∷ [])
            "WowzaController.disconnectStream" "WowzaService.disconnectStream"
            (of_param "appName" ∷ of_param "streamName" ∷ []))))
    ∷ (allow managers (
        endpoint get (text "connections" ∷ []) "WowzaController.getConnections"
          "WowzaService.getConnections" []))
    ∷ (allow everyone (
        endpoint get (text "streams" ∷ param "streamId" ∷ text "playback-url" ∷ [])
          "WowzaController.getPlaybackUrl" "WowzaSecureTokenService.generateSecureToken"
          (query_field "streamName"
            ∷ query_field "appName"
            ∷ req_ip
            ∷ constant "1800"
            ∷ user_session
            ∷ of_param "streamId"
            ∷ [])))
    ∷ (allow staff (
        answers 204 (
          endpoint delete (text "streams" ∷ param "streamId" ∷ text "token" ∷ [])
            "WowzaController.revokeToken" "WowzaSecureTokenService.revokeToken"
            (of_param "streamId" ∷ user_session ∷ []))))
    ∷ [])

abbrev pub wowza_servers_controller : Controller
wowza_servers_controller = record {
  prefix = "wowza-servers";
  class_roles = some managers;
  class_guards = jwt_auth_guard ∷ [];
  routes =
      (endpoint get [] "WowzaServersController.findAll" "WowzaServersService.findAll" [])
      ∷ (endpoint get (uuid "id" ∷ []) "WowzaServersController.findOne"
          "WowzaServersService.findOne" (of_param "id" ∷ []))
      ∷ (answers 201 (
          endpoint post [] "WowzaServersController.create" "WowzaServersService.create"
            (body ∷ [])))
      ∷ (endpoint put (uuid "id" ∷ []) "WowzaServersController.update" "WowzaServersService.update"
          (of_param "id" ∷ body ∷ []))
      ∷ (answers 204 (
          endpoint delete (uuid "id" ∷ []) "WowzaServersController.remove"
            "WowzaServersService.remove" (of_param "id" ∷ [])))
      ∷ (answers 200 (
          endpoint post (uuid "id" ∷ text "set-default" ∷ []) "WowzaServersController.setDefault"
            "WowzaServersService.setDefault" (of_param "id" ∷ [])))
      ∷ (answers 200 (
          endpoint post (uuid "id" ∷ text "test" ∷ []) "WowzaServersController.testConnection"
            "WowzaServersService.testConnection" (of_param "id" ∷ [])))
      ∷ [];
}

abbrev pub health_controller : Controller
health_controller =
    controller "health"
      ((open_to_all (endpoint get [] "HealthController.check" "HealthCheckService.check" [])) ∷ [])
