-- ===== src/Mounts.antt =====
-- The addons that the server mounts, in src/multiaddonmanager.cpp: `MountAddon`, `UnmountAddon`,
-- `RefreshAddons`, `ClearAddons`, `AddAddon`, `RemoveAddon`, `ReloadMap`, the callback of the convar
-- `mm_extra_addons`, and the hooks that refresh. The search paths of the engine are a parameter `W`.
pub mod Cleared
pub mod Refresh
pub mod Holding
pub mod Kept
pub mod Lists
pub mod Steps
mod Tests
use multi_addon_rss.Addons.{contains, find_and_remove, is_empty, string_to_vector, vector_to_string}
use multi_addon_rss.Base.{
  Bool, Bytes, List, Option, [], codes, equal, false, get_elem?, if◌then◌else◌, length, map, none,
  not, some, suc, take, true, zero, ℕ, ◌&&◌, ◌++◌, ◌-◌, ◌/◌, ◌||◌, ◌∷◌,
}
use multi_addon_rss.Clients.{Manager}
use multi_addon_rss.Downloads.{Downloads, Steam, download_addon, on_addon_downloaded}
use multi_addon_rss.SignOn.{changelevel}

-- What the engine answers and does. A file on the disk is there or not for the whole of a call.
-- `fast_remove` is `FindAndFastRemove`, which may change the order of a list.
pub record Engine (W : Type 0) : Type 0 where
  pub working_dir : Bytes
  pub max_path : ℕ
  pub map_name : Bytes
  pub is_dedicated : Bool
  pub mount_download : Bool
  pub is_official : Bytes → Bool
  pub path_exists : Bytes → Bool
  pub add_search_path : Bytes → Bool → W → W
  pub remove_search_path : Bytes → W → Bool × W
  pub fast_remove : Bytes → List Bytes → List Bytes

-- The manager with its downloads, the convar `mm_extra_addons`, the search paths, and the commands
-- that the server was given, the last one first.
pub record Server (T W : Type 0) : Type 0 where
  pub manager : Manager T
  pub downloads : Downloads
  pub extra_addons_convar : Bytes
  pub search_paths : W
  pub commands : List Bytes

-- `V_snprintf(buf, len, …)` of a text: what fits before the terminator.
abbrev pub fit : ℕ → Bytes → Bytes
fit len text = take (len - 1) text

-- `BuildAddonPath`
unfoldable pub build_addon_path : {W : Type 0} → Engine W → Bytes → Bool → Bytes
build_addon_path eng addon legacy = fit eng.max_path (
    eng.working_dir
    ++ (codes "steamapps/workshop/content/730/"
        ++ (addon
            ++ (codes "/" ++ (addon ++ ((if legacy then [] else codes "_dir") ++ codes ".vpk"))))))

module _ {T W : Type 0} (eng : Engine W) (steam : Steam) where
  -- `DownloadAddon` on the server's state.
  unfoldable pub download : Bytes → Bool → Bool → Server T W → Server T W
  download addon important force s = record s {
    downloads = (download_addon steam s.downloads addon important force).1;
  }

  -- `MountAddon`, from `BuildAddonPath` on.
  unfoldable pub mount_files : Bytes → Bool → Server T W → Bool × Server T W
  mount_files addon to_tail s =
      if not (eng.path_exists (build_addon_path eng addon false))
        && not (eng.path_exists (build_addon_path eng addon true))
      then (false, s)
      else if contains addon s.manager.mounted_addons
      then (false, s)
      else (
        true,
        record s {
          search_paths =
              eng.add_search_path (build_addon_path eng addon true) to_tail s.search_paths;
          manager = record s.manager { mounted_addons = s.manager.mounted_addons ++ addon ∷ [] };
        },
      )

  -- `MountAddon`
  unfoldable pub mount_addon : Bytes → Bool → Server T W → Bool × Server T W
  mount_addon addon to_tail s =
      let id = steam.to_uint64 addon in
      if is_empty addon
      then (false, s)
      else if contains addon (string_to_vector s.manager.current_workshop_map)
      then (false, s)
      else if steam.is_legacy id
      then (false, s)
      else if not (steam.is_installed id)
      then (false, download addon true true s)
      else mount_files addon to_tail (if eng.mount_download then download addon false true s else s)

  -- `UnmountAddon`
  unfoldable pub unmount_addon : Bytes → Server T W → Bool × Server T W
  unmount_addon addon s =
      let removed = eng.remove_search_path (build_addon_path eng addon false) s.search_paths in
      let s' = record s { search_paths = removed.1 } in
      if is_empty addon then (false, s) else if not removed.0 then (false, s') else (
        true,
        record s' {
          manager = record s.manager {
            mounted_addons = eng.fast_remove addon s.manager.mounted_addons;
          };
        },
      )

  -- One round of `FOR_EACH_VEC_BACK(m_MountedAddons, i)`.
  abbrev pub unmount_at : Option Bytes → Server T W → Server T W
  unmount_at none s = s
  unmount_at (some addon) s = (unmount_addon addon s).1

  -- The loop for the indices below `n`, downwards, each of them into the list as it then is.
  unfoldable pub unmount_below : ℕ → Server T W → Server T W
  unmount_below zero s = s
  unmount_below (suc i) s = unmount_below i (unmount_at (get_elem? s.manager.mounted_addons i) s)

  unfoldable pub unmount_all : Server T W → Server T W
  unmount_all s = unmount_below (length s.manager.mounted_addons) s

  -- The loop over `m_ExtraAddons`, and `bAllAddonsMounted`.
  unfoldable pub mount_each : List Bytes → Server T W → Bool × Server T W
  mount_each [] s = (true, s)
  mount_each (addon ∷ addons) s =
      let mounted = mount_addon addon false s in
      let rest = mount_each addons mounted.1 in (mounted.0 && rest.0, rest.1)

  -- `ReloadMap`
  unfoldable pub reload_map : Server T W → Server T W
  reload_map s =
      let map = s.manager.current_workshop_map in
      let command =
        if is_empty map || eng.is_official map
        then codes "changelevel " ++ eng.map_name
        else codes "host_workshop_map " ++ map in
      record s { commands = fit eng.max_path command ∷ s.commands }

  -- `RefreshAddons`
  unfoldable pub refresh_addons : Bool → Server T W → Server T W
  refresh_addons reload s =
      let cleared = unmount_all s in
      let mounted = mount_each cleared.manager.extra_addons cleared in
      if not steam.has_ugc
      then s
      else if mounted.0 && reload
      then reload_map mounted.1
      else mounted.1

  -- `m_ExtraAddons` changes, and the convar with it.
  abbrev pub set_extra_addons : List Bytes → Server T W → Server T W
  set_extra_addons addons s = record s {
    manager = record s.manager { extra_addons = addons };
    extra_addons_convar = vector_to_string addons;
  }

  -- `ClearAddons`
  unfoldable pub clear_addons : Server T W → Server T W
  clear_addons s = unmount_all (set_extra_addons [] s)

  -- `AddAddon`
  unfoldable pub add_addon : Bytes → Bool → Server T W → Bool × Server T W
  add_addon addon refresh s =
      let s' = set_extra_addons (s.manager.extra_addons ++ addon ∷ []) s in
      if contains addon s.manager.extra_addons
      then (false, s)
      else (true, if refresh then refresh_addons false s' else s')

  -- `RemoveAddon`
  unfoldable pub remove_addon : Bytes → Bool → Server T W → Bool × Server T W
  remove_addon addon refresh s =
      let s' = set_extra_addons (find_and_remove addon s.manager.extra_addons) s in
      if not (contains addon s.manager.extra_addons)
      then (false, s)
      else (true, if refresh then refresh_addons false s' else s')

  -- The callback of `mm_extra_addons`, which runs when the convar has its new value.
  unfoldable pub on_extra_addons_changed : Bytes → Server T W → Server T W
  on_extra_addons_changed value s = refresh_addons false (record s {
    manager = record s.manager { extra_addons = string_to_vector value };
    extra_addons_convar = value;
  })

  -- `Hook_GameServerSteamAPIActivated`, without the registration of the callback.
  unfoldable pub hook_game_server_steam_api_activated : Server T W → Server T W
  hook_game_server_steam_api_activated s = if not eng.is_dedicated then s else refresh_addons true s

  -- `OnAddonDownloaded`, with the reload of the map.
  unfoldable pub finish_download : ℕ → Server T W → Server T W
  finish_download id s =
      let after = on_addon_downloaded s.downloads id in
      let s' = record s { downloads = after.0 } in if after.1 then reload_map s' else s'

  -- `Hook_StartupServer`. `drop_empty_paths` is the two calls that remove the path "".
  unfoldable pub hook_startup_server : (W → W) → Server T W → Server T W
  hook_startup_server drop_empty_paths s = refresh_addons false (record s {
    manager = record s.manager { timed_out_clients = [] };
    search_paths = drop_empty_paths s.search_paths;
  })

-- `IsAddonMounted`
unfoldable pub is_addon_mounted : {T : Type 0} → Manager T → Bytes → Bool → Bool
is_addon_mounted m addon check_workshop_map =
    contains addon m.mounted_addons || (check_workshop_map && equal m.current_workshop_map addon)
