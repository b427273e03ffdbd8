-- ===== src/Plugin.antt =====
-- The life of the plugin, in src/multiaddonmanager.cpp: `Load` and `Unload` as the effects that they
-- have, one after the other, `OnMetamodQuery`, and the file of commands that `ParseCfg` runs.
pub mod Life
pub mod Config
pub mod Commands
pub mod Granted
pub mod Requests
pub mod Events
mod Tests
use multi_addon_rss.Addons.{is_empty}
use multi_addon_rss.Base.{
  Bool, Bytes, List, Option, [], equal, false, if◌then◌else◌, none, not, some, true, ◌&&◌, ◌++◌,
  ◌==◌, ◌∷◌,
}

-- The addresses that `Load` looks up: three functions by signatures, and three virtual tables.
pub data Lookup : Type 0 where
  host_state_request reply_connection script_get_addon game_event_manager_table
        server_side_client_table hltv_client_table :
      Lookup

-- The hooks: three on functions, and the others on virtual tables.
pub data Hook : Type 0 where
  set_pending_host_state_request reply_connection_hook script_get_addon_hook client_connect
        can_hltv_client_connect client_disconnect client_active game_server_steam_api_activated
        game_frame startup_server post_event_abstract load_events_from_file
        send_net_message_server_side_client send_net_message_hltv_client :
      Hook

pub data Effect : Type 0 where
  adds_listener : Effect
  looks_up : Lookup → Effect
  loads_preferences : Effect
  installs : Hook → Effect
  uninstalls : Hook → Effect
  registers_downloads : Effect
  registers_convars : Effect
  parses_cfg : Effect
  clears_addons : Effect

abbrev pub function_hooks : List Hook
function_hooks = set_pending_host_state_request ∷ reply_connection_hook ∷ script_get_addon_hook ∷ []

abbrev pub virtual_hooks : List Hook
virtual_hooks =
    client_connect ∷ can_hltv_client_connect ∷ client_disconnect ∷ client_active
    ∷ game_server_steam_api_activated ∷ game_frame ∷ startup_server ∷ post_event_abstract
    ∷ load_events_from_file ∷ send_net_message_server_side_client ∷ send_net_message_hltv_client
    ∷ []

abbrev pub lookups : List Lookup
lookups =
    host_state_request ∷ reply_connection ∷ script_get_addon ∷ game_event_manager_table
    ∷ server_side_client_table ∷ hltv_client_table ∷ []

unfoldable pub each : {A : Type 0} → (A → Effect) → List A → List Effect
each f [] = []
each f (x ∷ xs) = f x ∷ each f xs

-- `g_bRequiredInitLoaded`, behind all of the lookups.
unfoldable pub all_found : (Lookup → Bool) → List Lookup → Bool
all_found found [] = true
all_found found (l ∷ ls) = found l && all_found found ls

-- What `Load` does where every lookup succeeded.
unfoldable pub start : Bool → Bool → List Effect
start late dedicated =
    loads_preferences
    ∷ (each installs function_hooks
        ++ (each installs virtual_hooks
            ++ ((if late && dedicated then registers_downloads ∷ [] else [])
                ++ registers_convars ∷ parses_cfg ∷ [])))

-- `Load`: its result, and its effects. `has_interfaces` says whether the engine has all that the
-- macros ask for, which return early.
unfoldable pub load : Bool → (Lookup → Bool) → Bool → Bool → Bool × List Effect
load has_interfaces found late dedicated =
    let tried = adds_listener ∷ each looks_up lookups in
    if not has_interfaces
    then (false, [])
    else if not (all_found found lookups)
    then (false, tried)
    else (true, tried ++ start late dedicated)

-- `Unload`
unfoldable pub unload : List Effect
unload = clears_addons ∷ each uninstalls virtual_hooks

-- The two interfaces that other plugins ask for, and `OnMetamodQuery`: the interface, and whether the
-- code that it stores is `META_IFACE_OK`.
pub data Interface : Type 0 where
  legacy_interface rss_assets_interface : Interface

unfoldable pub on_metamod_query : Bytes → Bytes → Bytes → Option Interface × Bool
on_metamod_query legacy_name rss_assets_name name =
    if not (equal name legacy_name) && not (equal name rss_assets_name)
    then (none, false)
    else if equal name rss_assets_name
    then (some rss_assets_interface, true)
    else (some legacy_interface, true)

-- `std::getline` over a file, on the line read so far.
unfoldable pub read_lines : Bytes → Bytes → List Bytes
read_lines [] [] = []
read_lines (c ∷ line) [] = (c ∷ line) ∷ []
read_lines line (c ∷ s) =
    let rest = read_lines (if c == 10 then [] else line ++ c ∷ []) s in
    if c == 10 then line ∷ rest else rest

-- `pop_back` of a carriage return.
unfoldable pub drop_return : Bytes → Bytes
drop_return [] = []
drop_return (c ∷ []) = if c == 13 then [] else c ∷ []
drop_return (c ∷ d ∷ s) = c ∷ drop_return (d ∷ s)

-- The commands that lines give.
unfoldable pub commands_of : List Bytes → List Bytes
commands_of [] = []
commands_of (line ∷ lines) =
    let rest = commands_of lines in
    if is_empty (drop_return line) then rest else drop_return line ∷ rest

-- `ParseCfg`, on the file where it is there: the commands that the server is given.
abbrev pub parse_cfg : Option Bytes → List Bytes
parse_cfg none = []
parse_cfg (some text) = commands_of (read_lines [] text)
