-- ===== src/Http/Endpoints/Field.antt =====
-- The controllers of src/modules/devices and org.
use mediavault_backend.Prelude.{[], ◌∷◌}
use mediavault_backend.Http.Request.{get, post, patch, delete}
use mediavault_backend.Http.Route.{
  text, param, uuid, body, query, user_id, of_param, body_field, query_field, constant, endpoint,
  allow, answers, Controller, controller, admins, managers, everyone,
}

abbrev pub devices_controller : Controller
devices_controller = controller "devices" (
    (allow everyone
      (endpoint get [] "DevicesController.findAll" "DevicesService.findAll" (query ∷ [])))
    ∷ (allow managers (
        answers 201 (
          endpoint post [] "DevicesController.create" "DevicesService.create"
            (body ∷ user_id ∷ []))))
    ∷ (allow everyone (
        endpoint get (uuid "id" ∷ []) "DevicesController.findOne" "DevicesService.findOne"
          (of_param "id" ∷ [])))
    ∷ (allow managers (
        endpoint patch (uuid "id" ∷ []) "DevicesController.update" "DevicesService.update"
          (of_param "id" ∷ body ∷ user_id ∷ [])))
    ∷ (allow admins (
        answers 204 (
          endpoint delete (uuid "id" ∷ []) "DevicesController.remove" "DevicesService.remove"
            (of_param "id" ∷ user_id ∷ []))))
    ∷ (allow managers (
        endpoint post (uuid "id" ∷ text "assign" ∷ []) "DevicesController.assign"
          "DevicesService.assignToUser" (of_param "id" ∷ body_field "userId" ∷ user_id ∷ [])))
    ∷ (allow managers (
        endpoint post (uuid "id" ∷ text "unassign" ∷ []) "DevicesController.unassign"
          "DevicesService.unassignFromUser" (of_param "id" ∷ user_id ∷ [])))
    ∷ (allow managers (
        answers 200 (
          endpoint patch (uuid "id" ∷ text "status" ∷ text "active" ∷ [])
            "DevicesController.setActive" "DevicesService.updateStatus"
            (of_param "id" ∷ constant "active" ∷ user_id ∷ []))))
    ∷ (allow managers (
        answers 200 (
          endpoint patch (uuid "id" ∷ text "status" ∷ text "inactive" ∷ [])
            "DevicesController.setInactive" "DevicesService.updateStatus"
            (of_param "id" ∷ constant "inactive" ∷ user_id ∷ []))))
    ∷ (allow managers (
        answers 200 (
          endpoint patch (uuid "id" ∷ text "status" ∷ text "registered" ∷ [])
            "DevicesController.setRegistered" "DevicesService.updateStatus"
            (of_param "id" ∷ constant "registered" ∷ user_id ∷ []))))
    ∷ (allow everyone (
        endpoint get (uuid "id" ∷ text "live-status" ∷ []) "DevicesController.getLiveStatus"
          "DevicesService.findOne" (of_param "id" ∷ [])))
    ∷ [])

abbrev pub org_controller : Controller
org_controller = controller "org" (
    (endpoint get (text "countries" ∷ []) "OrgController.getCountries" "OrgService.getCountries" [])
    ∷ (allow managers (
        answers 201 (
          endpoint post (text "countries" ∷ []) "OrgController.createCountry"
            "OrgService.createCountry" (body_field "name" ∷ []))))
    ∷ (endpoint get (text "states" ∷ []) "OrgController.getStates" "OrgService.getStates"
        (query_field "countryId" ∷ []))
    ∷ (allow managers (
        answers 201 (
          endpoint post (text "states" ∷ []) "OrgController.createState" "OrgService.createState"
            (body_field "name" ∷ body_field "countryId" ∷ []))))
    ∷ (endpoint get (text "municipalities" ∷ []) "OrgController.getMunicipalities"
        "OrgService.getMunicipalities" (query_field "stateId" ∷ []))
    ∷ (allow managers (
        answers 201 (
          endpoint post (text "municipalities" ∷ []) "OrgController.createMunicipality"
            "OrgService.createMunicipality" (body_field "name" ∷ body_field "stateId" ∷ []))))
    ∷ (endpoint get (text "zones" ∷ []) "OrgController.getZones" "OrgService.getZones"
        (query_field "municipalityId" ∷ []))
    ∷ (allow managers (
        answers 201 (
          endpoint post (text "zones" ∷ []) "OrgController.createZone" "OrgService.createZone"
            (body_field "name" ∷ body_field "municipalityId" ∷ []))))
    ∷ (endpoint get (text "quadrants" ∷ []) "OrgController.getQuadrants" "OrgService.getQuadrants"
        (query_field "zoneId" ∷ []))
    ∷ (allow managers (
        answers 201 (
          endpoint post (text "quadrants" ∷ []) "OrgController.createQuadrant"
            "OrgService.createQuadrant" (body_field "name" ∷ body_field "zoneId" ∷ []))))
    ∷ (endpoint get (text "zone-hierarchy" ∷ param "zoneId" ∷ []) "OrgController.getZoneHierarchy"
        "OrgService.getZoneHierarchy" (of_param "zoneId" ∷ []))
    ∷ (allow managers (
        answers 204 (
          endpoint delete (param "level" ∷ param "id" ∷ []) "OrgController.delete"
            "OrgService.delete" (of_param "level" ∷ of_param "id" ∷ []))))
    ∷ [])
