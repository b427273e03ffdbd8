-- ===== src/Connection.antt =====
-- `Hook_ReplyConnection` of src/multiaddonmanager.cpp. `clock k` is the `k`-th reading of
-- `Plat_FloatTime` in the call, from 0.
pub mod Sending
pub mod Staging
mod Tests
use multi_addon_rss.Addons.{contains, is_nil, is_rss_asset_addon, vector_to_string}
use multi_addon_rss.Base.{
  Bool, Bytes, List, [], equal, false, if◌then◌else◌, not, true, ℕ, ◌&&◌, ◌||◌, ◌∷◌,
}
use multi_addon_rss.Clients.{
  ClientAddonInfo, ConnectedState, Floats, Manager, client_info, connecting, get_client_addons,
  is_client_rss_assets_enabled, joined, none_state, put_client,
}
use multi_addon_rss.Prefs.IdSet.{insert}

-- The convars that the flow reads, and `IsDedicatedServer`.
pub record Settings (T : Type 0) : Type 0 where
  pub cache_clients_with_addons : Bool
  pub cache_clients_duration : T
  pub addon_connection_timeout : T
  pub extra_addons_timeout : T
  pub is_dedicated_server : Bool

-- What the hook tells KHook to do with the original function.
pub data HookAction : Type 0 where
  ignore supersede : HookAction

-- The state behind `Hook_ReplyConnection`, the server's addon string behind it, the action, and the
-- addon string that the server had in each call of the original function. KHook makes such a call
-- behind the hook where the action is `ignore`, with the string that the server has then.
pub record Reply (T : Type 0) : Type 0 where
  pub manager : Manager T
  pub server_addons : Bytes
  pub action : HookAction
  pub sent : List Bytes

abbrev pub is_connecting : ConnectedState → Bool
is_connecting connecting = true
is_connecting none_state = false
is_connecting joined = false

-- The loop that removes what is neither downloaded nor pending. It runs from the back, which leaves
-- the others in order.
unfoldable pub keep_known : List Bytes → Bytes → List Bytes → List Bytes
keep_known downloaded pending [] = []
keep_known downloaded pending (a ∷ addons) =
    if contains a downloaded || equal a pending
    then a ∷ keep_known downloaded pending addons
    else keep_known downloaded pending addons

-- `stagedAndFastMountAddons`
unfoldable pub recombine : List Bytes → List Bytes → List Bytes
recombine staged [] = []
recombine staged (a ∷ full) =
    if is_rss_asset_addon a || contains a staged
    then a ∷ recombine staged full
    else recombine staged full

-- `if (downloadedAddons.Find(clientAddons[0]) == -1) currentPendingAddon = clientAddons[0];`
unfoldable pub first_pending : List Bytes → Bytes → List Bytes → Bytes
first_pending downloaded pending [] = pending
first_pending downloaded pending (a ∷ addons) = if contains a downloaded then pending else a

module _ {T : Type 0} (fl : Floats T) (set : Settings T) (clock : ℕ → T) where
  -- "Clear cache if necessary."
  unfoldable pub expire_cache : ClientAddonInfo T → ClientAddonInfo T
  expire_cache info =
      if set.cache_clients_with_addons
        && (fl.ne set.cache_clients_duration fl.zero_time
            && fl.gt (fl.sub (clock 0) info.last_active_time) set.cache_clients_duration)
      then record info { current_pending_addon = []; downloaded_addons = [] }
      else info

  -- The clock is read once before the assignment if the cache was looked at, so the reading of the
  -- assignment has a number of its own.
  unfoldable pub touch_client : ClientAddonInfo T → ClientAddonInfo T
  touch_client info = record (expire_cache info) { last_active_time = clock 1 }

  -- No addon is required: `clientAddons.Count() == 0`. A release build has no assertion that the
  -- server's string is empty, so the original function sends it as it is.
  unfoldable pub reply_nothing_required :
      Manager T → ℕ → ClientAddonInfo T → Bytes → Bool → List Bytes → Reply T
  reply_nothing_required m id info server_addons fast_mount full =
      let m' = put_client id (record info { current_pending_addon = [] }) m in
      if not fast_mount || is_nil full
      then record {
        manager = m';
        server_addons = server_addons;
        action = ignore;
        sent = server_addons ∷ [];
      }
      else record {
        manager = m';
        server_addons = server_addons;
        action = supersede;
        sent = vector_to_string full ∷ [];
      }

  -- The addons to send, and the call of the original function with them.
  unfoldable pub reply_staged :
      Manager T → ℕ → ClientAddonInfo T → Bytes → Bool → List Bytes → List Bytes → Reply T
  reply_staged m id info server_addons fast_mount staged full =
      let pending = first_pending info.downloaded_addons info.current_pending_addon staged in
      let known = keep_known info.downloaded_addons pending staged in
      let sending = if fast_mount then recombine known full else known in
      record {
        manager = put_client id (record info { current_pending_addon = pending }) m;
        server_addons = server_addons;
        action = supersede;
        sent = vector_to_string sending ∷ [];
      }

  -- `addon_connection_timeout > 0 && … > addon_connection_timeout`, for a client that is connecting.
  unfoldable pub is_timed_out : ClientAddonInfo T → Bool
  is_timed_out info =
      fl.gt set.addon_connection_timeout fl.zero_time
      && fl.gt (fl.sub (clock 2) info.connection_start_time) set.addon_connection_timeout

  unfoldable pub start_connecting : ClientAddonInfo T → ClientAddonInfo T
  start_connecting info = record info {
    connection_start_time = clock 2;
    connected_state = connecting;
  }

  unfoldable pub reply_required :
      Manager T → ℕ → ClientAddonInfo T → Bytes → Bool → List Bytes → List Bytes → Reply T
  reply_required m id info server_addons fast_mount staged full =
      if not (is_connecting info.connected_state)
      then reply_staged m id (start_connecting info) server_addons fast_mount staged full
      else if is_timed_out info
      then record {
        manager = record (put_client id info m) {
          timed_out_clients = insert id m.timed_out_clients;
        };
        server_addons = server_addons;
        action = supersede;
        sent = [];
      }
      else reply_staged m id info server_addons fast_mount staged full

  -- `Hook_ReplyConnection`
  unfoldable pub hook_reply_connection : Manager T → ℕ → Bytes → Reply T
  hook_reply_connection m id server_addons =
      let info = touch_client (client_info fl m id) in
      let m' = put_client id info m in
      let staged = get_client_addons fl m' id false in
      let fast_mount = not (is_client_rss_assets_enabled m' id) in
      let full = if fast_mount then get_client_addons fl m' id true else [] in
      if is_nil staged
      then reply_nothing_required m' id info server_addons fast_mount full
      else reply_required m' id info server_addons fast_mount staged full
