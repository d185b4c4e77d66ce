-- ===== src/Devices/Listing.antt =====
-- `findAll` of src/modules/devices/devices.service.ts, and the live status of
-- src/modules/devices/devices.controller.ts.
use mediavault_backend.Prelude.{
  ℕ, ◌<◌, String, Bool, true, false, Option, none, some, List, ◌&&◌, ◌||◌, ◌==◌, ◌≡◌, get_or,
  if◌then◌else◌, length, refl, ◌∙◌, Result, ok, err,
}
use mediavault_backend.Prelude as Prelude
use mediavault_backend.Platform.Queries.{Queries, lower_like, newest}
use mediavault_backend.Paging.{page_rows, total_pages, Paged, when_given, when_defined, same_flag}
use mediavault_backend.Paging.Pages.{answers, answers_all, map_self}
use mediavault_backend.Paging.Queried.{queried}
use mediavault_backend.Backend.{User}
use mediavault_backend.Devices.Records.{
  Device, DeviceStatus, registered, active, inactive, DeviceTables, Devices,
}

pub record DeviceFilters : Type 0 where
  pub status : Option DeviceStatus
  pub is_active : Option Bool
  pub assigned_user_id : Option String
  pub search : Option String
  pub page : Option ℕ
  pub limit : Option ℕ

abbrev pub same_status : DeviceStatus → DeviceStatus → Bool
same_status registered registered = true
same_status active active = true
same_status inactive inactive = true
same_status _ _ = false

-- `user.id = :userId`.
abbrev pub is_assigned_to : Option User → String → Bool
is_assigned_to none uid = false
is_assigned_to (some u) uid = u.id == uid

-- The answer of `getLiveStatus`.
pub record LiveStatus : Type 0 where
  pub is_live : Bool
  pub wowza_stream_name : String
  pub last_seen : Option ℕ

unfoldable pub live_status : Result Device → Result LiveStatus
live_status (err x) = err x
live_status (ok d) = ok (record {
  is_live = same_status d.status active;
  wowza_stream_name = d.wowza_stream_name;
  last_seen = d.last_seen;
})

module _ (env : DeviceTables) (q : Queries) where
  unfoldable pub is_listed : DeviceFilters → Device → Bool
  is_listed f d =
      when_defined f.status (same_status d.status)
      && when_defined f.is_active (same_flag d.is_active)
      && when_given f.assigned_user_id (is_assigned_to d.assigned_user)
      && when_given f.search (λ s.
        lower_like q s d.name || lower_like q s d.serial || lower_like q s d.wowza_stream_name)

  unfoldable pub listed : DeviceFilters → Devices env → List Device
  listed f s = queried env.devices q (newest (λ (d : Device). d.created_at)) (is_listed f) s.devices

  unfoldable pub find_all : DeviceFilters → Devices env → Paged Device
  find_all f s = record {
    rows = page_rows (get_or f.page 1) (get_or f.limit 20) (listed f s);
    page = get_or f.page 1;
    limit = get_or f.limit 20;
    total = length (listed f s);
  }

  find_all_pages :
      (f : DeviceFilters) (s : Devices env)
      → 0 < get_or f.limit 20
      → answers
          (λ page. find_all (record f { page = some page }) s)
          (total_pages (find_all f s).total (get_or f.limit 20))
        ≡ listed f s
  unfolding find_all listed is_listed
  find_all_pages f s h =
      answers_all (λ d. d) (λ page. find_all (record f { page = some page }) s) (get_or f.limit 20)
        (listed f s) h
        (λ page. Prelude.sym (map_self (page_rows page (get_or f.limit 20) (listed f s))))
      ∙ map_self (listed f s)
