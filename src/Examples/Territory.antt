-- ===== src/Examples/Territory.antt =====
-- The theorem on the hierarchy of src/modules/org at a zone that is created level by level.
use mediavault_backend.Prelude.{true, some, List, [], ◌∷◌, ◌≡◌, refl, ok}
use mediavault_backend.Platform.Repository.{by_key}
use mediavault_backend.Org.Tables.{
  OrgTables, Org, ZoneHierarchy, country_key, state_key, municipality_key, zone_key, quadrant_key,
  new_zone,
}
use mediavault_backend.Org.{
  exists_by, create_country, create_state, create_municipality, create_zone, get_zone_hierarchy,
  remove_row, delete, delete_level,
}
use mediavault_backend.Org.Hierarchy.{IsRooted}
use mediavault_backend.Org.Runs.{
  Call, add_country, add_state, add_municipality, add_zone, remove, run, run-hierarchy,
}
use mediavault_backend.Examples.Tables.{list_repository, first, visible, without}

abbrev tables : OrgTables
tables = record {
  countries = list_repository country_key;
  states = list_repository state_key;
  municipalities = list_repository municipality_key;
  zones = list_repository zone_key;
  quadrants = list_repository quadrant_key;
}

abbrev empty : Org tables
empty = record { countries = []; states = []; municipalities = []; zones = []; quadrants = [] }

empty-IsRooted : IsRooted tables empty
unfolding first visible
empty-IsRooted = record {
  states_linked = λ k r e. absurd (cc);
  municipalities_linked = λ k r e. absurd (cc);
  zones_linked = λ k r e. absurd (cc);
  quadrants_linked = λ k r e. absurd (cc);
}

-- A second country goes again, and a zone under a missing municipality is refused.
abbrev calls : List Call
calls =
    add_country 1 "c1" "Guatemala"
    ∷ add_country 2 "c2" "Belice"
    ∷ add_state 3 "s1" "Petén" "c1"
    ∷ add_municipality 4 "m1" "Flores" "s1"
    ∷ add_zone 5 "z1" "Centro" "m1"
    ∷ add_zone 6 "z2" "Norte" "m2"
    ∷ remove "country" "c2"
    ∷ remove "region" "c1"
    ∷ []

abbrev after : Org tables
after = run tables calls empty

zone_stored :
    tables.zones.find_one (by_key zone_key "z1") after.zones ≡ some (new_zone 5 "z1" "Centro" "m1")
unfolding run create_country create_state create_municipality create_zone delete_level delete
    remove_row first visible without
zone_stored = refl

run-hierarchy_example :
    IsRooted tables after
    × ((h : ZoneHierarchy) × (get_zone_hierarchy tables "z1" after ≡ (after, ok h))
        × (h.zone_id ≡ "z1")
        × (h.municipality_id ≡ "m1")
        × (exists_by tables.states h.state_id after.states ≡ true)
        × (exists_by tables.countries h.country_id after.countries ≡ true))
run-hierarchy_example =
    run-hierarchy tables calls empty "z1" (new_zone 5 "z1" "Centro" "m1") empty-IsRooted zone_stored
