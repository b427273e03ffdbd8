-- ===== src/Store/Tests.antt =====
-- Runs of the store on two files in memory.
use multi_addon_rss.Base.{
  Bool, List, [], ap, arith, false, length, none, refl, some, true, ℕ, ◌∷◌, ◌≡◌, ◌≤◌,
}
use multi_addon_rss.Clients.{
  ClientAddonInfo, Manager, client_info, is_client_rss_assets_enabled, new_client, put_client,
}
use multi_addon_rss.Prefs.Build.{build_rss_asset_preferences_json}
use multi_addon_rss.Prefs.Change.{apply_rss_preference_change, persist_change, set_member}
use multi_addon_rss.Prefs.Decimal.{decimal, digits_rev}
use multi_addon_rss.Prefs.IdSet.{IdSet, erase, insert, member}
use multi_addon_rss.Samples.{nat_floats, plain_addon, rss_addon, sample_manager}
use multi_addon_rss.Store.{
  load_opt_out_clients, preferences_file, publish_temp, save_opt_out_clients,
  set_client_rss_assets_enabled, write_temp,
}
use multi_addon_rss.Store.Disks.{
  Disk, bytes_of, disk, disk-KeepsPreferences, disk-StoresBytes, disk_contents, handle_file,
}
use multi_addon_rss.Store.Loads.{IsValid, load-IsValid}
use multi_addon_rss.Store.Reload.{save_load}
use multi_addon_rss.Store.Saves.{save_failed_keeps}
use multi_addon_rss.Store.Service.{Represents, Service, Session, set_all}
use multi_addon_rss.Store.Sessions.{restart_keeps, set_all-Session}
use multi_addon_rss.Store.Setter.{IsCleared, set_client_enabled}

abbrev empty_disk : Disk
empty_disk = record { main = none; temp = none }

abbrev ids : IdSet
ids = 7 ∷ []

full_fails : (save_opt_out_clients (disk false) ids empty_disk).0 ≡ false
unfolding save_opt_out_clients write_temp publish_temp build_rss_asset_preferences_json decimal
    digits_rev
full_fails = refl

save_failed_keeps_example :
    disk_contents preferences_file (save_opt_out_clients (disk false) ids empty_disk).1
    ≡ disk_contents preferences_file empty_disk
save_failed_keeps_example =
    save_failed_keeps (disk false) disk_contents handle_file (disk-KeepsPreferences false) ids
      empty_disk full_fails

saves : (save_opt_out_clients (disk true) ids empty_disk).0 ≡ true
unfolding save_opt_out_clients write_temp publish_temp build_rss_asset_preferences_json decimal
    digits_rev
saves = refl

stores :
    disk_contents preferences_file (save_opt_out_clients (disk true) ids empty_disk).1
    ≡ some (build_rss_asset_preferences_json ids)
unfolding save_opt_out_clients write_temp publish_temp build_rss_asset_preferences_json decimal
    digits_rev
stores = refl

small : length (build_rss_asset_preferences_json ids) ≤ 1048576
unfolding build_rss_asset_preferences_json decimal digits_rev
small = omega arith

save_load_example :
    let r = load_opt_out_clients (disk true) (save_opt_out_clients (disk true) ids empty_disk).1 in
    (r.members ≡ ids) × (r.writable ≡ true)
save_load_example =
    save_load (disk true) disk_contents handle_file disk-StoresBytes ids empty_disk preferences_file
      ((omega arith, tt), (omega arith, tt)) saves small refl (ap (λ o. length (bytes_of o)) stores)

abbrev cached : ClientAddonInfo ℕ
cached = record (new_client nat_floats) {
  downloaded_addons = rss_addon ∷ plain_addon ∷ [];
  current_pending_addon = rss_addon;
}

abbrev cached_manager : Manager ℕ
cached_manager = put_client 7 cached sample_manager

opted_out : member 7 (7 ∷ []) ≡ true
unfolding member
opted_out = refl

saves_without : (save_opt_out_clients (disk true) (set_member 7 true (7 ∷ [])) empty_disk).0 ≡ true
unfolding save_opt_out_clients write_temp publish_temp build_rss_asset_preferences_json set_member
    erase
saves_without = refl

set_client_enabled_example :
    let r = set_client_rss_assets_enabled (disk true) cached_manager 7 true empty_disk in
    (r.result ≡ true)
    × (is_client_rss_assets_enabled r.manager 7 ≡ true)
    × IsCleared (client_info nat_floats cached_manager 7) (client_info nat_floats r.manager 7)
set_client_enabled_example =
    set_client_enabled (disk true) nat_floats cached_manager 7 empty_disk (omega arith, tt)
      (omega arith) refl opted_out saves_without

fails_set :
    (set_client_rss_assets_enabled (disk false) sample_manager 9 false empty_disk).result ≡ false
unfolding set_client_rss_assets_enabled apply_rss_preference_change persist_change set_member
    save_opt_out_clients write_temp publish_temp build_rss_asset_preferences_json member insert
    decimal
fails_set = refl

load-IsValid_example : IsValid (load_opt_out_clients (disk true) empty_disk)
load-IsValid_example = load-IsValid (disk true) empty_disk

abbrev stored_disk : Disk
stored_disk = record { main = some (build_rss_asset_preferences_json (7 ∷ [])); temp = none }

-- The client 7 opted out.
abbrev sample_service : Service
sample_service = record { opted_out = λ j. member j (7 ∷ []); is_open = true }

sample-Represents : Represents (disk true) disk_contents sample_service sample_manager stored_disk
sample-Represents = (((omega arith, tt), (omega arith, tt)), λ j. refl, refl, refl)

abbrev requests : List (ℕ × Bool)
requests = (9, false) ∷ (7, true) ∷ []

set_all-Session_example :
    let r = set_all (disk true) requests sample_manager stored_disk in
    (t : Service) × Session sample_service requests r.0 t
    × Represents (disk true) disk_contents t r.1 r.2
set_all-Session_example =
    set_all-Session (disk true) disk_contents handle_file (disk-KeepsPreferences true)
      disk-StoresBytes sample_service requests sample_manager stored_disk
      (omega arith, (omega arith, tt)) sample-Represents

abbrev after_requests : List Bool × Manager ℕ × Disk
after_requests = set_all (disk true) requests sample_manager stored_disk

after_small :
    length (build_rss_asset_preferences_json after_requests.1.rss_asset_opt_out_clients) ≤ 1048576
unfolding set_all set_client_rss_assets_enabled apply_rss_preference_change persist_change
    set_member save_opt_out_clients write_temp publish_temp build_rss_asset_preferences_json member
    insert erase decimal digits_rev
after_small = omega arith

after_read :
    length (bytes_of (disk_contents preferences_file after_requests.2))
    ≡ length (build_rss_asset_preferences_json after_requests.1.rss_asset_opt_out_clients)
unfolding set_all set_client_rss_assets_enabled apply_rss_preference_change persist_change
    set_member save_opt_out_clients write_temp publish_temp build_rss_asset_preferences_json member
    insert erase decimal digits_rev
after_read = refl

restart_keeps_example :
    (t : Service) × Session sample_service requests after_requests.0 t
    × ((j : ℕ)
        → member j (load_opt_out_clients (disk true) after_requests.2).members ≡ t.opted_out j)
    × ((load_opt_out_clients (disk true) after_requests.2).writable ≡ true)
restart_keeps_example =
    restart_keeps (disk true) disk_contents handle_file (disk-KeepsPreferences true)
      disk-StoresBytes sample_service requests sample_manager stored_disk preferences_file
      (omega arith, (omega arith, tt)) sample-Represents after_small refl after_read
