-- ===== src/Audit/Listing.antt =====
-- The queries of src/modules/audit/audit.service.ts: the list, the trail of an entity, the entries of a
-- user, the summary, and the rows of the export. The dates of a request are times; `now` is the time
-- of the call.
use mediavault_backend.Prelude.{
  ℕ, ◌<◌, String, Bool, true, Option, some, List, ◌&&◌, ◌||◌, ◌==◌, ◌≡◌, map, get_or, if◌then◌else◌,
  is_some, length, leb, refl, Map,
}
use mediavault_backend.Platform.Repository.{Repository}
use mediavault_backend.Platform.Queries.{Queries, newest}
use mediavault_backend.Platform.Runtime.{Runtime}
use mediavault_backend.Paging.{take, page_rows, total_pages, Paged, when_given, equals}
use mediavault_backend.Paging.Pages.{answers, answers_all}
use mediavault_backend.Paging.Queried.{queried}
use mediavault_backend.Audit.{Value}

-- The entity, a row of the table.
pub record AuditEntity : Type 0 where
  pub id : String
  pub user_id : Option String
  pub action : String
  pub entity_type : String
  pub entity_id : Option String
  pub ip_address : Option String
  pub metadata : Option (Map Value)
  pub created_at : ℕ

abbrev pub entity_key : AuditEntity → String
entity_key e = e.id

pub record AuditFilters : Type 0 where
  pub user_id : Option String
  pub action : Option String
  pub entity_type : Option String
  pub entity_id : Option String
  pub from_date : Option ℕ
  pub to_date : Option ℕ
  pub ip_address : Option String
  pub page : Option ℕ
  pub limit : Option ℕ

pub record AuditLogEntry : Type 0 where
  pub id : String
  pub user_id : Option String
  pub action : String
  pub entity_type : String
  pub entity_id : Option String
  pub ip_address : Option String
  pub metadata : Option (Map Value)
  pub created_at : String

-- From the start of 1970, and until now, unless the request says otherwise.
abbrev pub between : ℕ → Option ℕ → Option ℕ → ℕ → Bool
between now from_date to_date t =
    if is_some from_date || is_some to_date
    then leb (get_or from_date 0) t && leb t (get_or to_date now)
    else true

unfoldable pub is_listed : ℕ → AuditFilters → AuditEntity → Bool
is_listed now f e =
    when_given f.user_id (equals e.user_id)
    && when_given f.action (λ a. e.action == a)
    && when_given f.entity_type (λ t. e.entity_type == t)
    && when_given f.entity_id (equals e.entity_id)
    && when_given f.ip_address (equals e.ip_address)
    && between now f.from_date f.to_date e.created_at

-- The conditions of the export.
unfoldable pub is_exported : ℕ → AuditFilters → AuditEntity → Bool
is_exported now f e =
    when_given f.user_id (equals e.user_id)
    && when_given f.action (λ a. e.action == a)
    && when_given f.entity_type (λ t. e.entity_type == t)
    && when_given f.entity_id (equals e.entity_id)
    && when_given f.ip_address (equals e.ip_address)
    && between now f.from_date f.to_date e.created_at

abbrev pub oldest : AuditEntity → AuditEntity → Bool
oldest d e = leb d.created_at e.created_at

module _ (repo : Repository AuditEntity entity_key) (q : Queries) (rt : Runtime) where
  abbrev pub to_entry : AuditEntity → AuditLogEntry
  to_entry e = record {
    id = e.id;
    user_id = e.user_id;
    action = e.action;
    entity_type = e.entity_type;
    entity_id = e.entity_id;
    ip_address = e.ip_address;
    metadata = e.metadata;
    created_at = rt.to_iso_string e.created_at;
  }

  abbrev pub by_time : (AuditEntity → Bool) → repo.Table → List AuditEntity
  by_time p t = queried repo q (newest (λ (e : AuditEntity). e.created_at)) p t

  unfoldable pub find_all : ℕ → AuditFilters → repo.Table → Paged AuditLogEntry
  find_all now f t = record {
    rows =
        map to_entry
          (page_rows (get_or f.page 1) (get_or f.limit 50) (by_time (is_listed now f) t));
    page = get_or f.page 1;
    limit = get_or f.limit 50;
    total = length (by_time (is_listed now f) t);
  }

  -- The rows that `exportToCsv` writes.
  unfoldable pub exported : ℕ → AuditFilters → repo.Table → List AuditEntity
  exported now f t = by_time (is_exported now f) t

  unfoldable pub find_by_user : String → Option ℕ → repo.Table → List AuditLogEntry
  find_by_user uid limit t =
      map to_entry (take (get_or limit 100) (by_time (λ e. equals e.user_id uid) t))

  unfoldable pub find_by_entity : String → String → repo.Table → List AuditEntity
  find_by_entity entity_type entity_id t =
      take 100 (
        queried repo q oldest (λ e. e.entity_type == entity_type && equals e.entity_id entity_id) t)

  -- The export has the entries that the pages of the list show, in their order, for the same
  -- filters at the same time and a limit above 0.
  exported-find_all :
      (now : ℕ) (f : AuditFilters) (t : repo.Table)
      → 0 < get_or f.limit 50
      → answers
          (λ page. find_all now (record f { page = some page }) t)
          (total_pages (find_all now f t).total (get_or f.limit 50))
        ≡ map to_entry (exported now f t)
  unfolding find_all exported is_listed is_exported
  exported-find_all now f t h =
      answers_all to_entry (λ page. find_all now (record f { page = some page }) t)
        (get_or f.limit 50) (by_time (is_listed now f) t) h (λ page. refl)
