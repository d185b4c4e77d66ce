-- ===== src/Org/Hierarchy.antt =====
-- The levels of src/modules/org hang together: a stored row has its parents.
use mediavault_backend.Prelude.{ℕ, String, Option-cases, Bool-cases, inl, inr}
use mediavault_backend.Platform.Repository.{by_key}
use mediavault_backend.Org.Tables.{
  OrgTables, Org, OrgLevel, country, state_level, municipality, zone, quadrant, State, Municipality,
  Zone, Quadrant, state_key, municipality_key, zone_key, quadrant_key, new_country, new_state,
  new_municipality, new_zone, new_quadrant,
}
use mediavault_backend.Org.{
  exists_by, level_of, create_country, create_state, create_municipality, create_zone,
  create_quadrant, stored, remove_row, delete, delete_level,
}
use mediavault_backend.Org.Linked.{
  IsLinked, IsLinked-save, IsLinked-save_parent, IsLinked-delete, IsLinked-cascade,
}

module _ (env : OrgTables) where
  abbrev pub StatesLinked : env.countries.Table → env.states.Table → Type 0
  StatesLinked = IsLinked env.countries env.states (λ r. r.country_id)

  abbrev pub MunicipalitiesLinked : env.states.Table → env.municipalities.Table → Type 0
  MunicipalitiesLinked = IsLinked env.states env.municipalities (λ r. r.state_id)

  abbrev pub ZonesLinked : env.municipalities.Table → env.zones.Table → Type 0
  ZonesLinked = IsLinked env.municipalities env.zones (λ r. r.municipality_id)

  abbrev pub QuadrantsLinked : env.zones.Table → env.quadrants.Table → Type 0
  QuadrantsLinked = IsLinked env.zones env.quadrants (λ r. r.zone_id)

  -- Every stored row has its parent.
  pub record IsRooted (s : Org env) : Type 0 where
    pub states_linked : StatesLinked s.countries s.states
    pub municipalities_linked : MunicipalitiesLinked s.states s.municipalities
    pub zones_linked : ZonesLinked s.municipalities s.zones
    pub quadrants_linked : QuadrantsLinked s.zones s.quadrants

  pub create_country-IsRooted :
      (now : ℕ) (id name : String) (s : Org env)
      → IsRooted s
      → IsRooted (create_country env now id name s).0
  unfolding create_country
  create_country-IsRooted now id name s h = record {
    states_linked =
        IsLinked-save_parent env.countries env.states (λ (r : State). r.country_id) s.countries
          s.states (new_country now id name) h.states_linked;
    municipalities_linked = h.municipalities_linked;
    zones_linked = h.zones_linked;
    quadrants_linked = h.quadrants_linked;
  }

  pub create_state-IsRooted :
      (now : ℕ) (id name country_id : String) (s : Org env)
      → IsRooted s
      → IsRooted (create_state env now id name country_id s).0
  unfolding create_state
  create_state-IsRooted now id name country_id s h =
      elim (Bool-cases (exists_by env.countries country_id s.countries)) [
        | inr e ↦ rw e h
        | inl e ↦ rw e (record {
          states_linked =
              IsLinked-save env.countries env.states (λ (r : State). r.country_id) s.countries
                s.states (new_state now id name country_id) e h.states_linked;
          municipalities_linked =
              IsLinked-save_parent env.states env.municipalities (λ (r : Municipality). r.state_id)
                s.states s.municipalities (new_state now id name country_id)
                h.municipalities_linked;
          zones_linked = h.zones_linked;
          quadrants_linked = h.quadrants_linked;
        })
      ]

  pub create_municipality-IsRooted :
      (now : ℕ) (id name state_id : String) (s : Org env)
      → IsRooted s
      → IsRooted (create_municipality env now id name state_id s).0
  unfolding create_municipality
  create_municipality-IsRooted now id name state_id s h =
      elim (Bool-cases (exists_by env.states state_id s.states)) [
        | inr e ↦ rw e h
        | inl e ↦ rw e (record {
          states_linked = h.states_linked;
          municipalities_linked =
              IsLinked-save env.states env.municipalities (λ (r : Municipality). r.state_id)
                s.states s.municipalities (new_municipality now id name state_id) e
                h.municipalities_linked;
          zones_linked =
              IsLinked-save_parent env.municipalities env.zones (λ (r : Zone). r.municipality_id)
                s.municipalities s.zones (new_municipality now id name state_id) h.zones_linked;
          quadrants_linked = h.quadrants_linked;
        })
      ]

  pub create_zone-IsRooted :
      (now : ℕ) (id name municipality_id : String) (s : Org env)
      → IsRooted s
      → IsRooted (create_zone env now id name municipality_id s).0
  unfolding create_zone
  create_zone-IsRooted now id name municipality_id s h =
      elim (Bool-cases (exists_by env.municipalities municipality_id s.municipalities)) [
        | inr e ↦ rw e h
        | inl e ↦ rw e (record {
          states_linked = h.states_linked;
          municipalities_linked = h.municipalities_linked;
          zones_linked =
              IsLinked-save env.municipalities env.zones (λ (r : Zone). r.municipality_id)
                s.municipalities s.zones (new_zone now id name municipality_id) e h.zones_linked;
          quadrants_linked =
              IsLinked-save_parent env.zones env.quadrants (λ (r : Quadrant). r.zone_id) s.zones
                s.quadrants (new_zone now id name municipality_id) h.quadrants_linked;
        })
      ]

  pub create_quadrant-IsRooted :
      (now : ℕ) (id name zone_id : String) (s : Org env)
      → IsRooted s
      → IsRooted (create_quadrant env now id name zone_id s).0
  unfolding create_quadrant
  create_quadrant-IsRooted now id name zone_id s h =
      elim (Bool-cases (exists_by env.zones zone_id s.zones)) [
        | inr e ↦ rw e h
        | inl e ↦ rw e (record {
          states_linked = h.states_linked;
          municipalities_linked = h.municipalities_linked;
          zones_linked = h.zones_linked;
          quadrants_linked =
              IsLinked-save env.zones env.quadrants (λ (r : Quadrant). r.zone_id) s.zones
                s.quadrants (new_quadrant now id name zone_id) e h.quadrants_linked;
        })
      ]

  remove_row-IsRooted :
      (level : OrgLevel) (id : String) (s : Org env)
      → IsRooted s
      → IsRooted (remove_row env level id s)
  unfolding remove_row
  remove_row-IsRooted country id s h = record {
    states_linked =
        IsLinked-cascade env.countries env.states (λ (r : State). r.country_id) s.countries _
          s.states h.states_linked;
    municipalities_linked =
        IsLinked-cascade env.states env.municipalities (λ (r : Municipality). r.state_id) s.states _
          s.municipalities h.municipalities_linked;
    zones_linked =
        IsLinked-cascade env.municipalities env.zones (λ (r : Zone). r.municipality_id)
          s.municipalities _ s.zones h.zones_linked;
    quadrants_linked =
        IsLinked-cascade env.zones env.quadrants (λ (r : Quadrant). r.zone_id) s.zones _ s.quadrants
          h.quadrants_linked;
  }
  remove_row-IsRooted state_level id s h = record {
    states_linked =
        IsLinked-delete env.countries env.states (λ (r : State). r.country_id) s.countries s.states
          (by_key state_key id) h.states_linked;
    municipalities_linked =
        IsLinked-cascade env.states env.municipalities (λ (r : Municipality). r.state_id) s.states _
          s.municipalities h.municipalities_linked;
    zones_linked =
        IsLinked-cascade env.municipalities env.zones (λ (r : Zone). r.municipality_id)
          s.municipalities _ s.zones h.zones_linked;
    quadrants_linked =
        IsLinked-cascade env.zones env.quadrants (λ (r : Quadrant). r.zone_id) s.zones _ s.quadrants
          h.quadrants_linked;
  }
  remove_row-IsRooted municipality id s h = record {
    states_linked = h.states_linked;
    municipalities_linked =
        IsLinked-delete env.states env.municipalities (λ (r : Municipality). r.state_id) s.states
          s.municipalities (by_key municipality_key id) h.municipalities_linked;
    zones_linked =
        IsLinked-cascade env.municipalities env.zones (λ (r : Zone). r.municipality_id)
          s.municipalities _ s.zones h.zones_linked;
    quadrants_linked =
        IsLinked-cascade env.zones env.quadrants (λ (r : Quadrant). r.zone_id) s.zones _ s.quadrants
          h.quadrants_linked;
  }
  remove_row-IsRooted zone id s h = record {
    states_linked = h.states_linked;
    municipalities_linked = h.municipalities_linked;
    zones_linked =
        IsLinked-delete env.municipalities env.zones (λ (r : Zone). r.municipality_id)
          s.municipalities s.zones (by_key zone_key id) h.zones_linked;
    quadrants_linked =
        IsLinked-cascade env.zones env.quadrants (λ (r : Quadrant). r.zone_id) s.zones _ s.quadrants
          h.quadrants_linked;
  }
  remove_row-IsRooted quadrant id s h = record {
    states_linked = h.states_linked;
    municipalities_linked = h.municipalities_linked;
    zones_linked = h.zones_linked;
    quadrants_linked =
        IsLinked-delete env.zones env.quadrants (λ (r : Quadrant). r.zone_id) s.zones s.quadrants
          (by_key quadrant_key id) h.quadrants_linked;
  }

  delete-IsRooted :
      (level : OrgLevel) (id : String) (s : Org env)
      → IsRooted s
      → IsRooted (delete env level id s).0
  unfolding delete
  delete-IsRooted level id s h = elim (Bool-cases (stored env level id s)) [
    | inr e ↦ rw e h
    | inl e ↦ rw e (remove_row-IsRooted level id s h)
  ]

  pub delete_level-IsRooted :
      (level id : String) (s : Org env) → IsRooted s → IsRooted (delete_level env level id s).0
  unfolding delete_level
  delete_level-IsRooted level id s h = elim (Option-cases (level_of level)) [
    | inl n ↦ rw n h
    | inr (l, e) ↦ rw e (delete-IsRooted l id s h)
  ]
