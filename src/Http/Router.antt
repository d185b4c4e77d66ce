-- ===== src/Http/Router.antt =====
-- The routes of the controllers of src/app.module.ts under the prefix of src/main.ts, and the one
-- that a request takes: the first that fits.
use mediavault_backend.Prelude.{
  String, Bool, true, false, Option, none, some, List, [], ◌∷◌, ◌++◌, ◌&&◌, ◌==◌, not, map,
  if◌then◌else◌, Map,
}
use mediavault_backend.Http.Request.{Verb, get, post, put, patch, delete}
use mediavault_backend.Http.Route as Route
use mediavault_backend.Http.Route.{
  Segment, text, param, uuid, Argument, Guard, jwt_auth_guard, jwt_refresh_guard, AuditMetadata,
  Controller,
}
use mediavault_backend.Http.Endpoints.{
  auth_controller, users_controller, roles_controller, security_controller, audit_controller,
  streams_controller, ingestion_controller, wowza_controller, wowza_servers_controller,
  health_controller, evidences_controller, events_controller, alerts_controller, devices_controller,
  org_controller,
}

-- A route under its controller: the whole path, the roles that `getAllAndOverride` finds, and the
-- guards of the class before those of the method.
pub record Endpoint : Type 0 where
  pub route : Route.Route
  pub path : List Segment
  pub roles : Option (List String)
  pub guards : List Guard

abbrev pub own_or_class : Option (List String) → Option (List String) → Option (List String)
own_or_class none class = class
own_or_class (some rs) class = some rs

abbrev pub mount_route : Controller → Route.Route → Endpoint
mount_route c r = record {
  route = r;
  path = text "api" ∷ text c.prefix ∷ r.path;
  roles = own_or_class r.roles c.class_roles;
  guards = c.class_guards ++ r.guards;
}

abbrev pub mount : List Controller → List Endpoint
mount [] = []
mount (c ∷ cs) = map (mount_route c) c.routes ++ mount cs

-- `AppModule`: its imports that have a controller.
abbrev pub app_controllers : List Controller
app_controllers =
    auth_controller ∷ users_controller ∷ roles_controller ∷ streams_controller
    ∷ evidences_controller ∷ events_controller ∷ wowza_controller ∷ audit_controller
    ∷ ingestion_controller ∷ security_controller ∷ health_controller ∷ wowza_servers_controller
    ∷ devices_controller ∷ alerts_controller ∷ org_controller ∷ []

unfoldable pub endpoints : List Endpoint
endpoints = mount app_controllers

abbrev pub same_verb : Verb → Verb → Bool
same_verb get get = true
same_verb post post = true
same_verb put put = true
same_verb patch patch = true
same_verb delete delete = true
same_verb _ _ = false

abbrev pub matches_segment : Segment → String → Bool
matches_segment (text t) s = t == s
matches_segment (param name) s = not (s == "")
matches_segment (uuid name) s = not (s == "")

unfoldable pub matches : List Segment → List String → Bool
matches [] [] = true
matches [] (s ∷ ss) = false
matches (p ∷ ps) [] = false
matches (p ∷ ps) (s ∷ ss) = matches_segment p s && matches ps ss

-- The parameters, by their names.
unfoldable pub bind_params : List Segment → List String → Map String
bind_params [] ss = []
bind_params (p ∷ ps) [] = []
bind_params (text t ∷ ps) (s ∷ ss) = bind_params ps ss
bind_params (param name ∷ ps) (s ∷ ss) = (name, s) ∷ bind_params ps ss
bind_params (uuid name ∷ ps) (s ∷ ss) = (name, s) ∷ bind_params ps ss

-- The first route that fits.
unfoldable pub find_route : Verb → List String → List Endpoint → Option Endpoint
find_route v path [] = none
find_route v path (e ∷ es) =
    if same_verb e.route.verb v && matches e.path path then some e else find_route v path es
