-- ===== src/Audit.antt =====
-- src/modules/audit: an entry is saved with the defaults of `log`. The log has its newest entry
-- first; a save that fails would leave it as it was.
pub mod Csv
pub mod Reading
pub mod Listing
use mediavault_backend.Prelude.{ℕ, String, Bool, Option, some, List, [], ◌∷◌, Map, get_or}

pub data Value : Type 0 where
  text : String → Value
  number : ℕ → Value
  flag : Bool → Value
  texts : List String → Value
  null : Value

-- `CreateAuditEntry`.
pub record CreateAuditEntry : Type 0 where
  pub action : String
  pub entity_type : Option String
  pub entity_id : Option String
  pub user_id : Option String
  pub ip_address : Option String
  pub metadata : Option (Map Value)

pub record AuditLog : Type 0 where
  pub action : String
  pub entity_type : String
  pub entity_id : Option String
  pub user_id : Option String
  pub ip_address : Option String
  pub metadata : Map Value

abbrev pub log : CreateAuditEntry → List AuditLog → List AuditLog
log e entries =
    record {
      action = e.action;
      entity_type = get_or e.entity_type "";
      entity_id = e.entity_id;
      user_id = e.user_id;
      ip_address = e.ip_address;
      metadata = get_or e.metadata [];
    }
    ∷ entries

abbrev pub log_action :
    String
    → String
    → Option String
    → Option String
    → Option String
    → Option (Map Value)
    → List AuditLog
    → List AuditLog
log_action action entity_type entity_id user_id ip_address metadata = log (record {
  action = action;
  entity_type = some entity_type;
  entity_id = entity_id;
  user_id = user_id;
  ip_address = ip_address;
  metadata = metadata;
})
