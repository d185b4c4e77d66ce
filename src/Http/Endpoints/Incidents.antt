-- ===== src/Http/Endpoints/Incidents.antt =====
-- The controllers of src/modules/evidences, events and alerts.
use mediavault_backend.Prelude.{[], ◌∷◌}
use mediavault_backend.Http.Request.{get, post, patch, delete}
use mediavault_backend.Http.Route.{
  text, param, uuid, body, query, user_id, user_role, client_ip, file, of_param, endpoint, allow,
  open_to_all, answers, audited, Controller, controller, admins, managers, staff, everyone,
}

abbrev pub evidences_controller : Controller
evidences_controller = controller "evidences" (
    (open_to_all (
      endpoint get (text "download" ∷ param "token" ∷ []) "EvidencesController.downloadEvidence"
        "EvidencesService.prepareDownload" (of_param "token" ∷ client_ip ∷ [])))
    ∷ (allow staff (
        answers 201 (
          endpoint post [] "EvidencesController.create" "EvidencesService.create"
            (file ∷ body ∷ user_id ∷ client_ip ∷ []))))
    ∷ (allow staff (
        answers 201 (
          endpoint post (text "snapshot" ∷ []) "EvidencesController.createSnapshot"
            "EvidencesService.createSnapshot" (body ∷ user_id ∷ []))))
    ∷ (allow staff (
        answers 201 (
          endpoint post (text "dvr-clip" ∷ []) "EvidencesController.createDvrClip"
            "EvidencesService.createDvrClip" (body ∷ user_id ∷ []))))
    ∷ (allow everyone (
        endpoint get [] "EvidencesController.findAll" "EvidencesService.findAll"
          (query ∷ user_id ∷ user_role ∷ [])))
    ∷ (allow everyone (
        audited "EVIDENCE_VIEWED" "Evidence" (
          endpoint get (uuid "id" ∷ []) "EvidencesController.findOne" "EvidencesService.findOne"
            (of_param "id" ∷ user_id ∷ user_role ∷ []))))
    ∷ (allow managers (
        endpoint get (uuid "id" ∷ text "verify-integrity" ∷ [])
          "EvidencesController.verifyIntegrity" "EvidencesService.verifyIntegrity"
          (of_param "id" ∷ user_id ∷ [])))
    ∷ (allow staff (
        endpoint get (uuid "id" ∷ text "export" ∷ []) "EvidencesController.exportEvidence"
          "EvidencesService.exportEvidence" (of_param "id" ∷ user_id ∷ [])))
    ∷ (allow admins (
        answers 204 (
          endpoint delete (uuid "id" ∷ []) "EvidencesController.remove" "EvidencesService.remove"
            (of_param "id" ∷ user_id ∷ []))))
    ∷ [])

abbrev pub events_controller : Controller
events_controller = controller "events" (
    (allow everyone
      (endpoint get [] "EventsController.findAll" "EventsService.findAll" (query ∷ [])))
    ∷ (allow staff (
        answers 201 (
          endpoint post [] "EventsController.create" "EventsService.create" (body ∷ user_id ∷ []))))
    ∷ (allow everyone (
        endpoint get (uuid "id" ∷ []) "EventsController.findOne" "EventsService.findOne"
          (of_param "id" ∷ [])))
    ∷ (allow staff (
        endpoint patch (uuid "id" ∷ []) "EventsController.update" "EventsService.update"
          (of_param "id" ∷ body ∷ user_id ∷ [])))
    ∷ (allow managers (
        answers 200 (
          endpoint post (uuid "id" ∷ text "close" ∷ []) "EventsController.close"
            "EventsService.close" (of_param "id" ∷ user_id ∷ []))))
    ∷ (allow staff (
        answers 200 (
          endpoint post (uuid "id" ∷ text "streams" ∷ uuid "streamId" ∷ [])
            "EventsController.addStream" "EventsService.addStream"
            (of_param "id" ∷ of_param "streamId" ∷ user_id ∷ []))))
    ∷ (allow managers (
        answers 204 (
          endpoint delete (uuid "id" ∷ text "streams" ∷ uuid "streamId" ∷ [])
            "EventsController.removeStream" "EventsService.removeStream"
            (of_param "id" ∷ of_param "streamId" ∷ user_id ∷ []))))
    ∷ (allow admins (
        answers 204 (
          endpoint delete (uuid "id" ∷ []) "EventsController.remove" "EventsService.remove"
            (of_param "id" ∷ user_id ∷ []))))
    ∷ [])

abbrev pub alerts_controller : Controller
alerts_controller = controller "alerts" (
    (allow staff (
      endpoint get (text "rules" ∷ []) "AlertsController.findAllRules" "AlertsService.findAllRules"
        (query ∷ [])))
    ∷ (allow managers (
        answers 201 (
          endpoint post (text "rules" ∷ []) "AlertsController.createRule" "AlertsService.createRule"
            (body ∷ user_id ∷ []))))
    ∷ (allow staff (
        endpoint get (text "rules" ∷ uuid "id" ∷ []) "AlertsController.findOneRule"
          "AlertsService.findOneRule" (of_param "id" ∷ [])))
    ∷ (allow managers (
        endpoint patch (text "rules" ∷ uuid "id" ∷ []) "AlertsController.updateRule"
          "AlertsService.updateRule" (of_param "id" ∷ body ∷ [])))
    ∷ (allow admins (
        answers 204 (
          endpoint delete (text "rules" ∷ uuid "id" ∷ []) "AlertsController.deleteRule"
            "AlertsService.deleteRule" (of_param "id" ∷ []))))
    ∷ (allow staff (
        endpoint get (text "events" ∷ []) "AlertsController.findEvents" "AlertsService.findEvents"
          (query ∷ [])))
    ∷ (allow staff (
        endpoint patch (text "events" ∷ uuid "id" ∷ text "acknowledge" ∷ [])
          "AlertsController.acknowledgeEvent" "AlertsService.acknowledgeEvent"
          (of_param "id" ∷ user_id ∷ [])))
    ∷ [])
