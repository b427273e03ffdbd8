-- ===== src/Reconnect.antt =====
-- `CheckClientAddons` of src/multiaddonmanager.cpp, which `Hook_ClientConnect` and
-- `Hook_CanHLTVClientConnect` call, `Hook_ClientDisconnect` and `Hook_ClientActive`.
pub mod FastMount
pub mod Round
pub mod Progress
mod Tests
use multi_addon_rss.Addons.{contains, is_empty, is_nil, is_rss_asset_addon, remove_each}
use multi_addon_rss.Base.{
  Bytes, List, [], equal, false, if◌then◌else◌, map, not, true, ℕ, ◌&&◌, ◌++◌, ◌||◌, ◌∷◌,
}
use multi_addon_rss.Clients.{
  ClientAddonInfo, Floats, Manager, client_info, get_client_addons, is_client_rss_assets_enabled,
  joined, none_state, put_client,
}
use multi_addon_rss.Connection.{Settings}

-- The loop over `fullAddons` without the pending addon: what stays in the list, and the RSS assets
-- among it.
unfoldable pub without_pending : Bytes → List Bytes → List Bytes
without_pending pending [] = []
without_pending pending (a ∷ full) =
    if equal a pending then without_pending pending full else a ∷ without_pending pending full

unfoldable pub skipped_rss_assets : Bytes → List Bytes → List Bytes
skipped_rss_assets map [] = []
skipped_rss_assets map (a ∷ rest) =
    if (is_empty map || not (equal a map)) && is_rss_asset_addon a
    then a ∷ skipped_rss_assets map rest
    else skipped_rss_assets map rest

-- `if (!IsRssAssetAddon(pending) && downloaded.Find(pending) == -1) downloaded.AddToTail(pending);`
unfoldable pub add_pending_once : {T : Type 0} → ClientAddonInfo T → ClientAddonInfo T
add_pending_once info =
    let pending = info.current_pending_addon in
    if not (is_rss_asset_addon pending) && not (contains pending info.downloaded_addons)
    then record info { downloaded_addons = info.downloaded_addons ++ pending ∷ [] }
    else info

module _ {T : Type 0} (fl : Floats T) (set : Settings T) (clock : ℕ → T) where
  -- The reconnect inside the interval, or outside it, and the reset of the pending addon.
  unfoldable pub settle_pending : Manager T → ℕ → ClientAddonInfo T → ClientAddonInfo T
  settle_pending m id info =
      let pending = info.current_pending_addon in
      let late = fl.gt (fl.sub (clock 0) info.last_active_time) set.extra_addons_timeout in
      let count = is_client_rss_assets_enabled m id || not (is_rss_asset_addon pending) in
      record info {
        downloaded_addons =
            if late
            then info.downloaded_addons
            else if count
            then info.downloaded_addons ++ pending ∷ []
            else info.downloaded_addons;
        current_pending_addon = [];
        last_active_time = clock 1;
      }

  -- The fast mount of a client that opted out and needs nothing more, on the client behind
  -- `add_pending_once`.
  unfoldable pub mount_skipped : Manager T → ℕ → ClientAddonInfo T → ClientAddonInfo T
  mount_skipped m id info =
      let rest = without_pending info.current_pending_addon (get_client_addons fl m id true) in
      let skipped = skipped_rss_assets m.current_workshop_map rest in
      if not (is_nil skipped) && is_nil rest
      then record info {
        downloaded_addons = info.downloaded_addons ++ skipped;
        current_pending_addon = [];
        last_active_time = clock 1;
      }
      else settle_pending m id info

  -- A client with a pending addon.
  unfoldable pub check_pending : Manager T → ℕ → ClientAddonInfo T → ClientAddonInfo T
  check_pending m id info =
      if is_client_rss_assets_enabled m id
      then settle_pending m id info
      else if is_nil (remove_each info.downloaded_addons (get_client_addons fl m id false))
      then mount_skipped m id (add_pending_once info)
      else settle_pending m id info

  -- `CheckClientAddons`
  unfoldable pub check_client_addons : Manager T → ℕ → Manager T
  check_client_addons m id =
      let info = record (client_info fl m id) { connected_state = joined } in
      let m' = put_client id info m in
      if is_nil (get_client_addons fl m' id true) || not set.is_dedicated_server
      then m'
      else if is_empty info.current_pending_addon
      then put_client id (record info { last_active_time = clock 1 }) m'
      else put_client id (check_pending m' id info) m'

  -- `Hook_ClientDisconnect`
  unfoldable pub hook_client_disconnect : Manager T → ℕ → Manager T
  hook_client_disconnect m id =
      put_client id
        (record (client_info fl m id) { last_active_time = clock 0; connected_state = none_state })
        m

  -- `Hook_ClientActive`
  unfoldable pub hook_client_active : Manager T → ℕ → Manager T
  hook_client_active m id =
      if set.cache_clients_with_addons
      then m
      else put_client id (record (client_info fl m id) { downloaded_addons = [] }) m
