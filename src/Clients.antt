-- ===== src/Clients.antt =====
-- The state of src/multiaddonmanager.cpp that the clients' addons depend on, and the queries on it.
pub mod Added
pub mod Needed
mod Tests
use multi_addon_rss.Addons.{contains, is_empty, is_rss_asset_addon}
use multi_addon_rss.Base.{
  Bool, Bytes, List, Option, [], equal, if◌then◌else◌, map, none, not, some, ℕ, ◌&&◌, ◌++◌, ◌==◌,
  ◌||◌, ◌∷◌,
}
use multi_addon_rss.Prefs.IdSet.{IdSet, member}

-- `double`, as the code uses it: differences, comparisons, and the constant 0. A `float` setting is
-- given as the `double` that a comparison converts it to.
pub record Floats (T : Type 0) : Type 0 where
  pub sub : T → T → T
  pub gt : T → T → Bool
  pub ne : T → T → Bool
  pub zero_time : T

-- `ClientConnectedState_t`
pub data ConnectedState : Type 0 where
  none_state connecting joined : ConnectedState

-- `ClientAddonInfo_t`
pub record ClientAddonInfo (T : Type 0) : Type 0 where
  pub last_active_time : T
  pub addons_to_load : List Bytes
  pub downloaded_addons : List Bytes
  pub current_pending_addon : Bytes
  pub connected_state : ConnectedState
  pub connection_start_time : T

abbrev pub new_client : {T : Type 0} → Floats T → ClientAddonInfo T
new_client fl = record {
  last_active_time = fl.zero_time;
  addons_to_load = [];
  downloaded_addons = [];
  current_pending_addon = [];
  connected_state = none_state;
  connection_start_time = fl.zero_time;
}

-- `g_ClientAddons`
abbrev pub ClientMap : Type 0 → Type 0
ClientMap T = ℕ → Option (ClientAddonInfo T)

-- `g_ClientAddons[id]`, which makes a new entry where there is none.
abbrev pub client_or_new : {T : Type 0} → Floats T → Option (ClientAddonInfo T) → ClientAddonInfo T
client_or_new fl none = new_client fl
client_or_new fl (some info) = info

-- The members of `MultiAddonManager`, with `g_ClientAddons`.
pub record Manager (T : Type 0) : Type 0 where
  pub extra_addons : List Bytes
  pub mounted_addons : List Bytes
  pub global_client_addons : List Bytes
  pub current_workshop_map : Bytes
  pub timed_out_clients : IdSet
  pub rss_asset_opt_out_clients : IdSet
  pub rss_asset_preferences_writable : Bool
  pub client_addons : ClientMap T

module _ {T : Type 0} (fl : Floats T) where
  abbrev pub client_info : Manager T → ℕ → ClientAddonInfo T
  client_info m id = client_or_new fl (m.client_addons id)

-- `g_ClientAddons[id] = info`
abbrev pub put_client : {T : Type 0} → ℕ → ClientAddonInfo T → Manager T → Manager T
put_client id info m = record m {
  client_addons = λ j. if j == id then some info else m.client_addons j;
}

-- `IsClientRssAssetsEnabled`
unfoldable pub is_client_rss_assets_enabled : {T : Type 0} → Manager T → ℕ → Bool
is_client_rss_assets_enabled m id = id == 0 || not (member id m.rss_asset_opt_out_clients)

-- The lambda `AddClientAddon` of `GetClientAddons`: whether it leaves an addon out, and the addition.
unfoldable pub is_skipped : Bool → Bytes → Bytes → Bool
is_skipped skip_rss_assets workshop_map addon =
    skip_rss_assets
    && (not (not (is_empty workshop_map) && equal addon workshop_map) && is_rss_asset_addon addon)

unfoldable pub add_listed : Bool → Bytes → List Bytes → Bytes → List Bytes
add_listed skip_rss_assets workshop_map addons addon =
    if is_skipped skip_rss_assets workshop_map addon
    then addons
    else if contains addon addons
    then addons
    else addons ++ addon ∷ []

unfoldable pub add_all_listed : Bool → Bytes → List Bytes → List Bytes → List Bytes
unfolding add_listed
add_all_listed skip workshop_map addons [] = addons
add_all_listed skip workshop_map addons (a ∷ more) =
    add_all_listed skip workshop_map (add_listed skip workshop_map addons a) more

-- `bSkipRssAssets`
unfoldable pub skip_rss_assets : {T : Type 0} → Manager T → ℕ → Bool → Bool
skip_rss_assets m id include_opted_out =
    not (id == 0) && (not include_opted_out && not (is_client_rss_assets_enabled m id))

module _ {T : Type 0} (fl : Floats T) where
  -- The body of `GetClientAddons`, for a value of `bSkipRssAssets`.
  unfoldable pub collect_addons : Manager T → ℕ → Bool → List Bytes
  collect_addons m id skip =
      let map = m.current_workshop_map in
      let first = if is_empty map then [] else map ∷ [] in
      let mounted = add_all_listed skip map first m.mounted_addons in
      let global = add_all_listed skip map mounted m.global_client_addons in
      if id == 0
      then global
      else add_all_listed skip map global (client_info fl m id).addons_to_load

  -- `GetClientAddons`. The entry of `id` is there or new, and is not changed.
  unfoldable pub get_client_addons : Manager T → ℕ → Bool → List Bytes
  unfolding skip_rss_assets
  get_client_addons m id include_opted_out =
      collect_addons m id (skip_rss_assets m id include_opted_out)
