-- ===== src/Host.antt =====
-- What the server itself loads, in src/multiaddonmanager.cpp: `Hook_SetPendingHostStateRequest` and
-- `Hook_ScriptGetAddon`; and the part of `Hook_GameFrame` that disconnects clients.
pub mod Requests
pub mod Kicks
mod Tests
use multi_addon_rss.Addons.{find_and_remove, is_empty, is_nil, vector_to_string}
use multi_addon_rss.Base.{
  Bool, Bytes, List, Option, [], codes, if◌then◌else◌, map, none, not, some, ℕ, ◌&&◌, ◌==◌, ◌∷◌,
}
use multi_addon_rss.Clients.{Floats, Manager, client_info, none_state, put_client}
use multi_addon_rss.Prefs.IdSet.{erase, member}

-- `m_pKV` of a request, as far as the hook looks into it: its name, and its "customgamemode".
pub record RequestKeys : Type 0 where
  pub name : Bytes
  pub custom_game_mode : Bytes

-- `CHostStateRequest`
pub record HostStateRequest : Type 0 where
  pub keys : Option RequestKeys
  pub level_name : Bytes
  pub addons : Bytes

-- What the hook asks the engine: `V_stricmp`, equal or not; whether "maps/<name>.vpk" is a file of
-- "MOD"; whether a name is a directory of "OFFICIAL_ADDONS".
pub record HostQueries : Type 0 where
  pub same_name : Bytes → Bytes → Bool
  pub is_valve_map : Bytes → Bool
  pub is_official_addon : Bytes → Bool

-- The workshop map behind the first `if`.
unfoldable pub requested_map : HostQueries → HostStateRequest → Option RequestKeys → Bytes → Bytes
requested_map q r none map =
    if not (is_empty r.addons) then r.addons else if q.is_valve_map r.level_name then [] else map
requested_map q r (some keys) map =
    if not (q.same_name keys.name (codes "ChangeLevel"))
    then if q.same_name keys.name (codes "map_workshop") then keys.custom_game_mode else []
    else map

-- The workshop map behind the test for a community map.
unfoldable pub settled_map : HostQueries → HostStateRequest → Bytes → Bytes
settled_map q r map =
    if not (is_empty r.addons) && q.is_official_addon r.addons
    then r.addons
    else requested_map q r r.keys map

-- "Rebuild the addon list."
unfoldable pub rebuilt_addons : List Bytes → Bytes → List Bytes
rebuilt_addons extra map = if is_empty map then extra else map ∷ find_and_remove map extra

-- `Hook_SetPendingHostStateRequest`
unfoldable pub hook_set_pending_host_state_request :
    {T : Type 0} → HostQueries → Manager T → HostStateRequest → Manager T × HostStateRequest
unfolding settled_map
hook_set_pending_host_state_request q m r =
    let map = settled_map q r m.current_workshop_map in
    let m' = record m { current_workshop_map = map } in
    if is_nil m.extra_addons
    then (m', r)
    else (m', record r { addons = vector_to_string (rebuilt_addons m.extra_addons map) })

-- `Hook_ScriptGetAddon`: nothing, or the id that the script gets in place of the original one.
-- `to_uint64` is `V_StringToUint64` with 0 for what is no number.
unfoldable pub hook_script_get_addon : {T : Type 0} → (Bytes → ℕ) → Manager T → Option ℕ
hook_script_get_addon to_uint64 m =
    let addon = to_uint64 m.current_workshop_map in
    if is_nil m.extra_addons then none else if addon == 0 then none else some addon

module _ {T : Type 0} (fl : Floats T) where
  -- One client of the loop of `Hook_GameFrame`, if it timed out.
  abbrev pub kick : Manager T → ℕ → Manager T
  kick m id =
      put_client id (record (client_info fl m id) { connected_state = none_state })
        (record m { timed_out_clients = erase id m.timed_out_clients })

  -- The loop, on the Steam ids of the clients: the state behind it, and the clients that it
  -- disconnects.
  unfoldable pub kick_timed_out : Manager T → List ℕ → Manager T × List ℕ
  kick_timed_out m [] = (m, [])
  kick_timed_out m (id ∷ clients) =
      let gone = kick_timed_out (kick m id) clients in
      let kept = kick_timed_out m clients in
      if member id m.timed_out_clients then (gone.0, id ∷ gone.1) else kept

  -- `Hook_GameFrame` without the progress message.
  unfoldable pub hook_game_frame : Manager T → List ℕ → Manager T × List ℕ
  hook_game_frame m clients =
      if is_empty m.timed_out_clients then (m, []) else kick_timed_out m clients
