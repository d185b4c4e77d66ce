-- ===== src/Audit/Csv.antt =====
-- The export of src/modules/audit/audit.service.ts. The query is SQL: its rows are an argument, and so
-- is the JSON text of the metadata.
use Prim.Native.String
use Prim.Native.Char.{Char, code}
use Prim.Native.String.append
use mediavault_backend.Prelude.{
  ℕ, String, Bool, Option, List, [], ◌∷◌, map, if◌then◌else◌, eqb, ltb, length, get_or, Result, ok,
  err, bad_request,
}

-- A row, its time as the ISO text, and `JSON.stringify(r.metadata)` if there is metadata.
pub record AuditRow : Type 0 where
  pub id : String
  pub created_at : String
  pub user_id : Option String
  pub action : String
  pub entity_type : Option String
  pub entity_id : Option String
  pub ip_address : Option String
  pub metadata : Option String

infixr 5 ◌<>◌
abbrev pub ◌<>◌ : String → String → String
s <> t = String.◌++◌ s t

abbrev pub is_quote : Char → Bool
is_quote c = eqb (code c) 34

-- `.replace(/"/g, '""')`.
unfoldable pub double_quotes : String → String
double_quotes String.[] = ""
double_quotes (String.◌∷◌ c s) =
    let rest = double_quotes s in
    if is_quote c then String.◌∷◌ c (String.◌∷◌ c rest) else String.◌∷◌ c rest

unfoldable pub join : String → List String → String
join sep [] = ""
join sep (s ∷ []) = s
join sep (s ∷ t ∷ ss) = s <> sep <> join sep (t ∷ ss)

abbrev pub header : String
header = "id,timestamp,user_id,action,entity_type,entity_id,ip_address,metadata"

-- The fields that are written as they are.
abbrev pub plain_fields : AuditRow → List String
plain_fields r =
    r.id
    ∷ r.created_at
    ∷ get_or r.user_id ""
    ∷ r.action
    ∷ get_or r.entity_type ""
    ∷ get_or r.entity_id ""
    ∷ get_or r.ip_address ""
    ∷ []

abbrev pub metadata_field : AuditRow → String
metadata_field r = "\"" <> double_quotes (get_or r.metadata "") <> "\""

abbrev pub before : List String → String → String
before [] s = s
before (f ∷ fs) s = f <> "," <> before fs s

-- The fields with commas between them.
unfoldable pub line_of : AuditRow → String
unfolding double_quotes
line_of r = before (plain_fields r) (metadata_field r)

abbrev pub csv_max_rows : ℕ
csv_max_rows = 10000

unfoldable pub export_to_csv : List AuditRow → Result String
unfolding line_of join
export_to_csv rows =
    if ltb csv_max_rows (length rows)
    then err bad_request
    else ok (join "\n" (header ∷ map line_of rows))
