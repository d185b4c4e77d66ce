-- ===== src/Http/Endpoints/Accounts.antt =====
-- src/modules/auth/auth.controller.ts, the controllers of src/modules/users, and those of
-- src/modules/security and src/modules/audit.
use mediavault_backend.Prelude.{[], ◌∷◌}
use mediavault_backend.Http.Request.{get, post, patch, delete}
use mediavault_backend.Http.Route.{
  text, param, uuid, body, query, user, user_id, user_role, user_session, login_ip, user_agent,
  raw_token, of_param, query_field, jwt_auth_guard, jwt_refresh_guard, endpoint, allow, open_to_all,
  guarded, answers, Controller, controller, admins, managers,
}

abbrev pub auth_controller : Controller
auth_controller = controller "auth" (
    (open_to_all (
      answers 200 (
        endpoint post (text "login" ∷ []) "AuthController.login" "AuthService.login"
          (body ∷ login_ip ∷ user_agent ∷ []))))
    ∷ (open_to_all (
        guarded jwt_refresh_guard (
          answers 200 (
            endpoint post (text "refresh" ∷ []) "AuthController.refresh" "AuthService.refresh"
              (user_id ∷ user_session ∷ [])))))
    ∷ (guarded jwt_auth_guard (
        answers 204 (
          endpoint post (text "logout" ∷ []) "AuthController.logout" "AuthService.logout"
            (user_id ∷ user_session ∷ raw_token ∷ []))))
    ∷ (guarded jwt_auth_guard (
        answers 204 (
          endpoint post (text "logout-all" ∷ []) "AuthController.logoutAll" "AuthService.logoutAll"
            (user_id ∷ []))))
    ∷ (guarded jwt_auth_guard (
        endpoint get (text "sessions" ∷ []) "AuthController.getSessions"
          "AuthService.getActiveSessions" (user_id ∷ [])))
    ∷ (allow admins (
        guarded jwt_auth_guard (
          answers 204 (
            endpoint delete (text "sessions" ∷ param "sessionId" ∷ [])
              "AuthController.revokeSession" "AuthService.revokeSession"
              (of_param "sessionId" ∷ user_id ∷ user_role ∷ [])))))
    ∷ (guarded jwt_auth_guard (endpoint get (text "me" ∷ []) "AuthController.getMe" "" (user ∷ [])))
    ∷ [])

abbrev pub users_controller : Controller
users_controller = controller "users" (
    (endpoint get (text "me" ∷ []) "UsersController.getMe" "UsersService.findOne" (user_id ∷ []))
    ∷ (endpoint patch (text "me" ∷ []) "UsersController.updateMe" "UsersService.updateProfile"
        (user_id ∷ body ∷ []))
    ∷ (answers 204 (
        endpoint post (text "me" ∷ text "change-password" ∷ []) "UsersController.changeOwnPassword"
          "UsersService.changeOwnPassword" (user_id ∷ body ∷ user_session ∷ [])))
    ∷ (allow managers
        (endpoint get (text "roles" ∷ []) "UsersController.getRoles" "UsersService.getRoles" []))
    ∷ (allow managers
        (endpoint get [] "UsersController.findAll" "UsersService.findAll" (query ∷ [])))
    ∷ (allow admins (
        answers 201
          (endpoint post [] "UsersController.create" "UsersService.create" (body ∷ user_id ∷ []))))
    ∷ (allow managers (
        endpoint get (uuid "id" ∷ []) "UsersController.findOne" "UsersService.findOne"
          (of_param "id" ∷ [])))
    ∷ (allow admins (
        endpoint patch (uuid "id" ∷ []) "UsersController.update" "UsersService.update"
          (of_param "id" ∷ body ∷ user_id ∷ [])))
    ∷ (allow admins (
        answers 204 (
          endpoint post (uuid "id" ∷ text "activate" ∷ []) "UsersController.activate"
            "UsersService.activate" (of_param "id" ∷ user_id ∷ []))))
    ∷ (allow admins (
        answers 204 (
          endpoint post (uuid "id" ∷ text "deactivate" ∷ []) "UsersController.deactivate"
            "UsersService.deactivate" (of_param "id" ∷ user_id ∷ []))))
    ∷ (allow admins (
        answers 204 (
          endpoint post (uuid "id" ∷ text "change-password" ∷ [])
            "UsersController.changePasswordByAdmin" "UsersService.changePasswordByAdmin"
            (of_param "id" ∷ body ∷ user_id ∷ []))))
    ∷ (allow admins (
        answers 204 (
          endpoint delete (uuid "id" ∷ []) "UsersController.remove" "UsersService.remove"
            (of_param "id" ∷ user_id ∷ []))))
    ∷ (allow admins (
        endpoint get (uuid "id" ∷ text "sessions" ∷ []) "UsersController.getUserSessions"
          "UsersService.getUserSessions" (of_param "id" ∷ [])))
    ∷ (endpoint get (uuid "id" ∷ text "audit-history" ∷ []) "UsersController.getUserAuditHistory"
        "UsersService.getUserAuditHistory" (of_param "id" ∷ user_id ∷ user_role ∷ []))
    ∷ [])

abbrev pub roles_controller : Controller
roles_controller = controller "roles" (
    (allow managers (endpoint get [] "RolesController.findAll" "RolesService.findAll" []))
    ∷ (allow managers (
        endpoint get (uuid "id" ∷ []) "RolesController.findOne" "RolesService.findOne"
          (of_param "id" ∷ [])))
    ∷ (allow admins
        (answers 201 (endpoint post [] "RolesController.create" "RolesService.create" (body ∷ []))))
    ∷ (allow admins (
        endpoint patch (uuid "id" ∷ []) "RolesController.update" "RolesService.update"
          (of_param "id" ∷ body ∷ [])))
    ∷ (allow ("admin" ∷ "superadmin" ∷ []) (
        endpoint patch (uuid "id" ∷ text "permissions" ∷ []) "RolesController.updatePermissions"
          "RolesService.updatePermissions" (of_param "id" ∷ body ∷ user_role ∷ [])))
    ∷ (allow admins (
        answers 204 (
          endpoint delete (uuid "id" ∷ []) "RolesController.remove" "RolesService.remove"
            (of_param "id" ∷ []))))
    ∷ [])

abbrev pub security_controller : Controller
security_controller = controller "security" (
    (allow managers (
      endpoint get (text "sessions" ∷ []) "SecurityController.getSessions"
        "SecurityService.getActiveSessions"
        (query_field "userId" ∷ query_field "role" ∷ query_field "fromDate" ∷ [])))
    ∷ (allow admins (
        endpoint get (text "sessions" ∷ uuid "sessionId" ∷ []) "SecurityController.getSessionDetail"
          "SecurityService.getSessionDetail" (of_param "sessionId" ∷ [])))
    ∷ (allow admins (
        answers 204 (
          endpoint delete (text "sessions" ∷ uuid "sessionId" ∷ [])
            "SecurityController.revokeSession" "SecurityService.revokeSession"
            (of_param "sessionId" ∷ user_id ∷ []))))
    ∷ (allow admins (
        endpoint delete (text "users" ∷ uuid "userId" ∷ text "sessions" ∷ [])
          "SecurityController.revokeAllUserSessions" "SecurityService.revokeAllUserSessions"
          (of_param "userId" ∷ user_id ∷ [])))
    ∷ (allow managers (
        endpoint get (text "anomalies" ∷ []) "SecurityController.detectAnomalies"
          "SecurityService.detectAnomalies" []))
    ∷ (allow admins (
        endpoint get (text "report" ∷ []) "SecurityController.getReport"
          "SecurityService.getSecurityReport" []))
    ∷ [])

abbrev pub audit_controller : Controller
audit_controller = controller "audit" (
    (allow managers (endpoint get [] "AuditController.findAll" "AuditService.findAll" (query ∷ [])))
    ∷ (allow managers (
        endpoint get (text "summary" ∷ []) "AuditController.getSummary"
          "AuditService.getActionSummary" (query_field "fromDate" ∷ query_field "toDate" ∷ [])))
    ∷ (allow admins (
        endpoint get (text "export" ∷ []) "AuditController.exportCsv" "AuditService.exportToCsv"
          (query ∷ [])))
    ∷ (allow managers (
        answers 200 (
          endpoint get (text "entity" ∷ param "entityType" ∷ uuid "entityId" ∷ [])
            "AuditController.findByEntity" "AuditService.findByEntity"
            (of_param "entityType" ∷ of_param "entityId" ∷ []))))
    ∷ (allow admins (
        endpoint get (text "user" ∷ uuid "userId" ∷ []) "AuditController.findByUser"
          "AuditService.findByUser" (of_param "userId" ∷ query_field "limit" ∷ [])))
    ∷ [])
