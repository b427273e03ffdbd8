-- ===== src/SignOn.antt =====
-- `Hook_SendNetMessage` of src/multiaddonmanager.cpp, which stages the addons one at a time.
pub mod Staged
pub mod Orders
pub mod Level
mod Tests
use multi_addon_rss.Addons.{is_empty, is_rss_asset_addon, remove_each, string_to_vector}
use multi_addon_rss.Base.{
  Bool, Bytes, List, [], equal, false, if◌then◌else◌, map, not, true, ℕ, ◌&&◌, ◌++◌, ◌||◌, ◌∷◌,
}
use multi_addon_rss.Clients.{
  ClientAddonInfo, Floats, Manager, client_info, get_client_addons, is_client_rss_assets_enabled,
  put_client,
}

-- `signon_state` of a `CNETMsg_SignonState`: `SIGNONSTATE_CHANGELEVEL`, or another one.
pub data SignonState : Type 0 where
  changelevel : SignonState
  other_state : ℕ → SignonState

abbrev pub is_changelevel : SignonState → Bool
is_changelevel changelevel = true
is_changelevel (other_state n) = false

-- A message to a client, as far as the hook looks into it.
pub data NetMessage : Type 0 where
  signon : SignonState → Bytes → NetMessage
  other_message : ℕ → NetMessage

-- The manager behind the hook, and the message that the original function gets.
pub record Sending (T : Type 0) : Type 0 where
  pub manager : Manager T
  pub message : NetMessage

-- `filteredAddonsList`
unfoldable pub filter_message_addons : Bool → Bytes → List Bytes → List Bytes
filter_message_addons enabled map [] = []
filter_message_addons enabled map (a ∷ addons) =
    if not (is_empty map) && equal a map
    then a ∷ filter_message_addons enabled map addons
    else if enabled || not (is_rss_asset_addon a)
    then a ∷ filter_message_addons enabled map addons
    else filter_message_addons enabled map addons

abbrev pub head_or_empty : List Bytes → Bytes
head_or_empty [] = []
head_or_empty (a ∷ addons) = a

-- The branch for a message that has `SIGNONSTATE_CHANGELEVEL`. Its three cases set the pending addon
-- and the message to the head of the filtered list, or to the empty string.
unfoldable pub send_changelevel :
    {T : Type 0} → Manager T → ℕ → ClientAddonInfo T → Bytes → Sending T
send_changelevel m id info addons =
    let filtered =
      filter_message_addons (is_client_rss_assets_enabled m id) m.current_workshop_map
        (string_to_vector addons) in
    let first = head_or_empty filtered in
    record {
      manager = put_client id (record info { current_pending_addon = first }) m;
      message = signon changelevel first;
    }

-- `addons.Count() == 0`: the pending addon is complete.
unfoldable pub complete_pending : {T : Type 0} → Bool → ClientAddonInfo T → ClientAddonInfo T
complete_pending enabled info = record info {
  downloaded_addons =
      if not (is_empty info.current_pending_addon) && enabled
      then info.downloaded_addons ++ info.current_pending_addon ∷ []
      else info.downloaded_addons;
  current_pending_addon = [];
}

-- The branch for any other state, on what is left to download.
unfoldable pub send_next :
    {T : Type 0} → Manager T → ℕ → ClientAddonInfo T → SignonState → Bytes → List Bytes → Sending T
send_next m id info state addons [] = record {
  manager = put_client id (complete_pending (is_client_rss_assets_enabled m id) info) m;
  message = signon state addons;
}
send_next m id info state addons (a ∷ missing) = record {
  manager = put_client id (record info { current_pending_addon = a }) m;
  message = signon changelevel a;
}

module _ {T : Type 0} (fl : Floats T) where
  -- What the client has still to download.
  unfoldable pub missing_addons : Manager T → ℕ → List Bytes
  missing_addons m id =
      remove_each (client_info fl m id).downloaded_addons (get_client_addons fl m id false)

  unfoldable pub send_signon : Manager T → ℕ → SignonState → Bytes → Sending T
  send_signon m id state addons =
      if is_changelevel state
      then send_changelevel m id (client_info fl m id) addons
      else send_next m id (client_info fl m id) state addons (missing_addons m id)

  -- The hook behind the update of `lastActiveTime`.
  unfoldable pub send_message : Bool → Manager T → ℕ → NetMessage → Sending T
  send_message is_dedicated_server m id (other_message n) = record {
    manager = m;
    message = other_message n;
  }
  send_message is_dedicated_server m id (signon state addons) =
      if is_dedicated_server
      then send_signon m id state addons
      else record { manager = m; message = signon state addons }

  -- `Hook_SendNetMessage`, at the time `now`.
  unfoldable pub hook_send_net_message : Bool → T → Manager T → ℕ → NetMessage → Sending T
  hook_send_net_message is_dedicated_server now m id message =
      let info = record (client_info fl m id) { last_active_time = now } in
      send_message is_dedicated_server (put_client id info m) id message
