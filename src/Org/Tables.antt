-- ===== src/Org/Tables.antt =====
-- The entities of src/modules/org/entities, without the loaded relations, and the rows that
-- src/modules/org/org.service.ts makes.
use mediavault_backend.Prelude.{ℕ, String}
use mediavault_backend.Platform.Repository.{Repository}

pub record Country : Type 0 where
  pub id : String
  pub name : String
  pub created_at : ℕ
  pub updated_at : ℕ

pub record State : Type 0 where
  pub id : String
  pub name : String
  pub country_id : String
  pub created_at : ℕ
  pub updated_at : ℕ

pub record Municipality : Type 0 where
  pub id : String
  pub name : String
  pub state_id : String
  pub created_at : ℕ
  pub updated_at : ℕ

pub record Zone : Type 0 where
  pub id : String
  pub name : String
  pub municipality_id : String
  pub created_at : ℕ
  pub updated_at : ℕ

pub record Quadrant : Type 0 where
  pub id : String
  pub name : String
  pub zone_id : String
  pub created_at : ℕ
  pub updated_at : ℕ

abbrev pub country_key : Country → String
country_key r = r.id

abbrev pub state_key : State → String
state_key r = r.id

abbrev pub municipality_key : Municipality → String
municipality_key r = r.id

abbrev pub zone_key : Zone → String
zone_key r = r.id

abbrev pub quadrant_key : Quadrant → String
quadrant_key r = r.id

pub data OrgLevel : Type 0 where
  country state_level municipality zone quadrant : OrgLevel

pub record OrgTables : Type 1 where
  pub countries : Repository Country country_key
  pub states : Repository State state_key
  pub municipalities : Repository Municipality municipality_key
  pub zones : Repository Zone zone_key
  pub quadrants : Repository Quadrant quadrant_key

pub record Org (env : OrgTables) : Type 0 where
  pub countries : env.countries.Table
  pub states : env.states.Table
  pub municipalities : env.municipalities.Table
  pub zones : env.zones.Table
  pub quadrants : env.quadrants.Table

pub record ZoneHierarchy : Type 0 where
  pub zone_id : String
  pub municipality_id : String
  pub state_id : String
  pub country_id : String

abbrev pub new_country : ℕ → String → String → Country
new_country now id name = record { id = id; name = name; created_at = now; updated_at = now }

abbrev pub new_state : ℕ → String → String → String → State
new_state now id name country_id = record {
  id = id;
  name = name;
  country_id = country_id;
  created_at = now;
  updated_at = now;
}

abbrev pub new_municipality : ℕ → String → String → String → Municipality
new_municipality now id name state_id = record {
  id = id;
  name = name;
  state_id = state_id;
  created_at = now;
  updated_at = now;
}

abbrev pub new_zone : ℕ → String → String → String → Zone
new_zone now id name municipality_id = record {
  id = id;
  name = name;
  municipality_id = municipality_id;
  created_at = now;
  updated_at = now;
}

abbrev pub new_quadrant : ℕ → String → String → String → Quadrant
new_quadrant now id name zone_id = record {
  id = id;
  name = name;
  zone_id = zone_id;
  created_at = now;
  updated_at = now;
}
