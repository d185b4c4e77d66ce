-- ===== src/Org/Runs.antt =====
-- Any calls of src/modules/org, one after the other, and the hierarchy of a zone after them.
use mediavault_backend.Prelude.{
  ℕ, String, true, some, List, [], ◌∷◌, ◌≡◌, ok, ap, arith, Option-cases, inl, inr,
}
use mediavault_backend.Platform.Repository.{by_key}
use mediavault_backend.Platform.Repository.Laws.{find_one-key}
use mediavault_backend.Org.Tables.{
  OrgTables, Org, Zone, state_key, municipality_key, zone_key, ZoneHierarchy,
}
use mediavault_backend.Org.{
  exists_by, create_country, create_state, create_municipality, create_zone, create_quadrant,
  get_zone_hierarchy, delete_level,
}
use mediavault_backend.Org.Hierarchy.{
  IsRooted, create_country-IsRooted, create_state-IsRooted, create_municipality-IsRooted,
  create_zone-IsRooted, create_quadrant-IsRooted, delete_level-IsRooted,
}

-- A call of the controller that writes: with the time, the new id and the name, and the parent's id.
pub data Call : Type 0 where
  add_country : ℕ → String → String → Call
  add_state add_municipality add_zone add_quadrant : ℕ → String → String → String → Call
  remove : String → String → Call

module _ (env : OrgTables) where
  abbrev pub call : Call → Org env → Org env
  call (add_country now id name) s = (create_country env now id name s).0
  call (add_state now id name parent) s = (create_state env now id name parent s).0
  call (add_municipality now id name parent) s = (create_municipality env now id name parent s).0
  call (add_zone now id name parent) s = (create_zone env now id name parent s).0
  call (add_quadrant now id name parent) s = (create_quadrant env now id name parent s).0
  call (remove level id) s = (delete_level env level id s).0

  unfoldable pub run : List Call → Org env → Org env
  run [] s = s
  run (c ∷ cs) s = run cs (call c s)

  call-IsRooted : (c : Call) (s : Org env) → IsRooted env s → IsRooted env (call c s)
  call-IsRooted (add_country now id name) s h = create_country-IsRooted env now id name s h
  call-IsRooted (add_state now id name parent) s h =
      create_state-IsRooted env now id name parent s h
  call-IsRooted (add_municipality now id name parent) s h =
      create_municipality-IsRooted env now id name parent s h
  call-IsRooted (add_zone now id name parent) s h = create_zone-IsRooted env now id name parent s h
  call-IsRooted (add_quadrant now id name parent) s h =
      create_quadrant-IsRooted env now id name parent s h
  call-IsRooted (remove level id) s h = delete_level-IsRooted env level id s h

  run-IsRooted : (cs : List Call) (s : Org env) → IsRooted env s → IsRooted env (run cs s)
  unfolding run
  run-IsRooted [] s h = h
  run-IsRooted (c ∷ cs) s h = run-IsRooted cs (call c s) (call-IsRooted c s h)

  -- In a rooted state a stored zone has its hierarchy, up to a country that is stored.
  hierarchy-IsRooted :
      (id : String) (s : Org env) (z : Zone)
      → IsRooted env s
      → env.zones.find_one (by_key zone_key id) s.zones ≡ some z
      → (h : ZoneHierarchy) × (get_zone_hierarchy env id s ≡ (s, ok h))
        × (h.zone_id ≡ id)
        × (h.municipality_id ≡ z.municipality_id)
        × (exists_by env.states h.state_id s.states ≡ true)
        × (exists_by env.countries h.country_id s.countries ≡ true)
  unfolding get_zone_hierarchy
  hierarchy-IsRooted id s z r f =
      elim (Option-cases (
        env.municipalities.find_one (by_key municipality_key z.municipality_id) s.municipalities)) [
          | inl n ↦ absurd (ground (arith, r.zones_linked id z f))
          | inr (m, g) ↦
              elim (Option-cases (env.states.find_one (by_key state_key m.state_id) s.states)) [
                | inl n ↦ absurd (ground (arith, r.municipalities_linked z.municipality_id m g))
                | inr (v, k) ↦
                    let zk = find_one-key env.zones s.zones id z f in
                    let mk =
                      find_one-key env.municipalities s.municipalities z.municipality_id m g in
                    let vk = find_one-key env.states s.states m.state_id v k in
                    (
                      record {
                        zone_id = z.id;
                        municipality_id = m.id;
                        state_id = v.id;
                        country_id = v.country_id;
                      },
                      ground arith,
                      zk,
                      mk,
                      ground (arith, vk, ap (λ (i : String). exists_by env.states i s.states) vk),
                      r.states_linked m.state_id v k,
                    )
              ]
        ]

  -- After any calls from a state in which every row has its parent, creations under a missing parent
  -- and unknown levels included, every row has its parent, and the hierarchy of a stored zone is
  -- answered: its municipality, and a state and a country that are stored.
  pub run-hierarchy :
      (cs : List Call) (s : Org env) (id : String) (z : Zone)
      → IsRooted env s
      → env.zones.find_one (by_key zone_key id) (run cs s).zones ≡ some z
      → IsRooted env (run cs s)
        × ((h : ZoneHierarchy) × (get_zone_hierarchy env id (run cs s) ≡ (run cs s, ok h))
            × (h.zone_id ≡ id)
            × (h.municipality_id ≡ z.municipality_id)
            × (exists_by env.states h.state_id (run cs s).states ≡ true)
            × (exists_by env.countries h.country_id (run cs s).countries ≡ true))
  run-hierarchy cs s id z r f =
      (run-IsRooted cs s r, hierarchy-IsRooted id (run cs s) z (run-IsRooted cs s r) f)
