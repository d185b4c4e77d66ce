-- ===== src/Org.antt =====
-- src/modules/org/org.service.ts and its entities. The id and the time of a new row are arguments.
-- A deletion takes the rows below with it, as the `onDelete: 'CASCADE'` of the entities says.
pub mod Tables
pub mod Linked
pub mod Hierarchy
pub mod Runs
use mediavault_backend.Prelude.{
  ℕ, String, Bool, true, false, Option, none, some, List, ◌&&◌, ◌==◌, not, is_some, if◌then◌else◌,
  Result, ok, err, Action, ◌>>=◌, ◌>>◌, pure, state, modify, or_throw, throw_if, not_found,
  bad_request,
}
use mediavault_backend.Platform.Repository.{Repository, by_key}
use mediavault_backend.Platform.Queries.{Queries}
use mediavault_backend.Paging.Queried.{queried}
use Tables.{
  Country, State, Municipality, Zone, Quadrant, country_key, state_key, municipality_key, zone_key,
  quadrant_key, OrgLevel, OrgTables, Org, ZoneHierarchy, new_country, new_state, new_municipality,
  new_zone, new_quadrant, country, state_level, municipality, zone, quadrant,
}

-- `existsBy({ id })`.
abbrev pub exists_by :
    {Row : Type 0} {key : Row → String} (repo : Repository Row key) → String → repo.Table → Bool
exists_by {key} repo id t = is_some (repo.find_one (by_key key id) t)

-- The row with the id was there and is no more.
abbrev pub is_gone :
    {Row : Type 0} {key : Row → String} (repo : Repository Row key)
    → repo.Table
    → repo.Table
    → String
    → Bool
is_gone repo before after id = exists_by repo id before && not (exists_by repo id after)

-- `VALID_LEVELS.includes(level)` of the controller.
abbrev pub level_of : String → Option OrgLevel
level_of s =
    if s == "country"
    then some country
    else if s == "state"
    then some state_level
    else if s == "municipality"
    then some municipality
    else if s == "zone"
    then some zone
    else if s == "quadrant"
    then some quadrant
    else none

module _ (env : OrgTables) (q : Queries) (ascending : String → String → Bool) where
  unfoldable pub get_countries : Org env → List Country
  get_countries s = queried env.countries q (λ a b. ascending a.name b.name) (λ r. true) s.countries

  unfoldable pub get_states : String → Action (Org env) (List State)
  get_states country_id = do
    s ← state
    throw_if (not (exists_by env.countries country_id s.countries)) not_found
    pure (
        queried env.states q (λ a b. ascending a.name b.name) (λ r. r.country_id == country_id)
          s.states)

  unfoldable pub get_municipalities : String → Action (Org env) (List Municipality)
  get_municipalities state_id = do
    s ← state
    throw_if (not (exists_by env.states state_id s.states)) not_found
    pure (
        queried env.municipalities q (λ a b. ascending a.name b.name) (λ r. r.state_id == state_id)
          s.municipalities)

  unfoldable pub get_zones : String → Action (Org env) (List Zone)
  get_zones municipality_id = do
    s ← state
    throw_if (not (exists_by env.municipalities municipality_id s.municipalities)) not_found
    pure (
        queried env.zones q (λ a b. ascending a.name b.name)
          (λ r. r.municipality_id == municipality_id) s.zones)

  unfoldable pub get_quadrants : String → Action (Org env) (List Quadrant)
  get_quadrants zone_id = do
    s ← state
    throw_if (not (exists_by env.zones zone_id s.zones)) not_found
    pure (
        queried env.quadrants q (λ a b. ascending a.name b.name) (λ r. r.zone_id == zone_id)
          s.quadrants)

module _ (env : OrgTables) where
  unfoldable pub create_country : ℕ → String → String → Action (Org env) Country
  create_country now id name = do
    modify (λ s. record s { countries = env.countries.save (new_country now id name) s.countries })
    pure (new_country now id name)

  unfoldable pub create_state : ℕ → String → String → String → Action (Org env) State
  create_state now id name country_id = do
    s ← state
    throw_if (not (exists_by env.countries country_id s.countries)) not_found
    modify (λ s. record s { states = env.states.save (new_state now id name country_id) s.states })
    pure (new_state now id name country_id)

  unfoldable pub create_municipality : ℕ → String → String → String → Action (Org env) Municipality
  create_municipality now id name state_id = do
    s ← state
    throw_if (not (exists_by env.states state_id s.states)) not_found
    modify (λ s. record s {
      municipalities =
          env.municipalities.save (new_municipality now id name state_id) s.municipalities;
    })
    pure (new_municipality now id name state_id)

  unfoldable pub create_zone : ℕ → String → String → String → Action (Org env) Zone
  create_zone now id name municipality_id = do
    s ← state
    throw_if (not (exists_by env.municipalities municipality_id s.municipalities)) not_found
    modify (λ s. record s { zones = env.zones.save (new_zone now id name municipality_id) s.zones })
    pure (new_zone now id name municipality_id)

  unfoldable pub create_quadrant : ℕ → String → String → String → Action (Org env) Quadrant
  create_quadrant now id name zone_id = do
    s ← state
    throw_if (not (exists_by env.zones zone_id s.zones)) not_found
    modify (λ s. record s {
      quadrants = env.quadrants.save (new_quadrant now id name zone_id) s.quadrants;
    })
    pure (new_quadrant now id name zone_id)

  unfoldable pub get_zone_hierarchy : String → Action (Org env) ZoneHierarchy
  get_zone_hierarchy zone_id = do
    s ← state
    z ← or_throw (env.zones.find_one (by_key zone_key zone_id) s.zones) not_found
    m ←
        or_throw
          (env.municipalities.find_one (by_key municipality_key z.municipality_id) s.municipalities)
          not_found
    v ← or_throw (env.states.find_one (by_key state_key m.state_id) s.states) not_found
    pure (record {
      zone_id = z.id;
      municipality_id = m.id;
      state_id = v.id;
      country_id = v.country_id;
    })

  -- The foreign keys, from each level to the next.
  abbrev pub cascade_zones : env.zones.Table → Org env → Org env
  cascade_zones before s = record s {
    quadrants = env.quadrants.delete (λ r. is_gone env.zones before s.zones r.zone_id) s.quadrants;
  }

  abbrev pub cascade_municipalities : env.municipalities.Table → Org env → Org env
  cascade_municipalities before s = cascade_zones s.zones (record s {
    zones =
        env.zones.delete (λ r. is_gone env.municipalities before s.municipalities r.municipality_id)
          s.zones;
  })

  abbrev pub cascade_states : env.states.Table → Org env → Org env
  cascade_states before s = cascade_municipalities s.municipalities (record s {
    municipalities =
        env.municipalities.delete (λ r. is_gone env.states before s.states r.state_id)
          s.municipalities;
  })

  abbrev pub cascade_countries : env.countries.Table → Org env → Org env
  cascade_countries before s = cascade_states s.states (record s {
    states =
        env.states.delete (λ r. is_gone env.countries before s.countries r.country_id) s.states;
  })

  -- Whether the level has the row.
  abbrev pub stored : OrgLevel → String → Org env → Bool
  stored country id s = exists_by env.countries id s.countries
  stored state_level id s = exists_by env.states id s.states
  stored municipality id s = exists_by env.municipalities id s.municipalities
  stored zone id s = exists_by env.zones id s.zones
  stored quadrant id s = exists_by env.quadrants id s.quadrants

  -- `repo.remove(entity)`.
  unfoldable pub remove_row : OrgLevel → String → Org env → Org env
  remove_row country id s =
      cascade_countries s.countries
        (record s { countries = env.countries.delete (by_key country_key id) s.countries })
  remove_row state_level id s =
      cascade_states s.states
        (record s { states = env.states.delete (by_key state_key id) s.states })
  remove_row municipality id s = cascade_municipalities s.municipalities (record s {
    municipalities = env.municipalities.delete (by_key municipality_key id) s.municipalities;
  })
  remove_row zone id s =
      cascade_zones s.zones (record s { zones = env.zones.delete (by_key zone_key id) s.zones })
  remove_row quadrant id s = record s {
    quadrants = env.quadrants.delete (by_key quadrant_key id) s.quadrants;
  }

  unfoldable pub delete : OrgLevel → String → Action (Org env) (Unit {0})
  unfolding remove_row
  delete level id = do
    s ← state
    throw_if (not (stored level id s)) not_found
    modify (remove_row level id)

  -- The controller's `delete`.
  unfoldable pub delete_level : String → String → Action (Org env) (Unit {0})
  unfolding delete
  delete_level level id = do l ← or_throw (level_of level) bad_request; delete l id
