-- ===== src/Lib.antt =====
-- MultiAddon-RSS: a server plugin that has clients download several workshop addons, one after the
-- other, and lets a client opt out of the RSS assets.
--
-- The parts and their files:
--
-- * Prefs models src/rss_asset_preferences.h, which has no state. Prefs/Chars is the scanner,
--   Prefs/Decimal is `ParseDecimalUll` and the digits of the writer, Prefs/Entries and Prefs/Parse are
--   the inner and the outer loop of `ParseRssAssetPreferences`, Prefs/Build is
--   `BuildRssAssetPreferencesJson`, Prefs/Legacy is `CollectLegacyOptOutIds`, Prefs/Change is
--   `ApplyRssPreferenceChange`, and Prefs/IdSet is the `std::set` of ids. A position in a document is
--   the list of the bytes from there on. A function that returns false gives `none`. Prefs/Grammar
--   has the documents of the format and their text, with all that may stand between the tokens.
-- * Addons has the string helpers of src/multiaddonmanager.cpp and the allowlist of RSS assets.
-- * Clients has the state: `Manager` is the members of `MultiAddonManager` (src/multiaddonmanager.h)
--   with `g_ClientAddons`, and `GetClientAddons` reads it.
-- * Connection is `Hook_ReplyConnection`, SignOn is `Hook_SendNetMessage`, and Reconnect is
--   `CheckClientAddons` with `Hook_ClientDisconnect` and `Hook_ClientActive`: the three steps of a
--   staged download. Each takes the manager and gives the one behind the call, with what it sends.
--   Behind an `Ignore` of `Hook_ReplyConnection` KHook runs the original function, which sends the
--   string that the server has.
-- * Host is `Hook_SetPendingHostStateRequest`, `Hook_ScriptGetAddon`, and the disconnects of
--   `Hook_GameFrame`. ClientLists is `AddClientAddon`, `RemoveClientAddon` and `ClearClientAddons`.
-- * Store is `SaveRssAssetOptOutClientsLocked`, `LoadRssAssetOptOutClients` and
--   `SetClientRssAssetsEnabled`, over the file system of the engine as a parameter. The setter
--   changes the members by Prefs/Change, with a save as its persistence. Store/Service has the store
--   as its callers see it: who opted out, and whether it takes changes.
-- * Downloads is `DownloadAddon` and `OnAddonDownloaded`, with Steam as a parameter and a reload of
--   the map as a result.
-- * Mounts is `MountAddon`, `UnmountAddon`, `RefreshAddons`, `ClearAddons`, `AddAddon`,
--   `RemoveAddon`, `ReloadMap` and the hooks that refresh, with the search paths as a parameter. It
--   calls Downloads, and the reload of the map is a command to the server. Mounts/Steps has these
--   operations as steps of the server. `MountAddon` adds a path without `_dir`, and `UnmountAddon`
--   removes the one with it: `Held` in Mounts/Cleared says that the search paths know an addon by the
--   second, and `AddsHeld` in Mounts/Holding that adding the first has this effect.
-- * Scanner is src/utils: `SignatureIterator` and `GetSection` of module.h, `FindVirtualTable` of
--   plat_unix.cpp (Scanner/Unix) and plat_win.cpp (Scanner/Windows), `GetModuleInformation` and
--   `InitializeSections` on the headers of a file (Scanner/Modules), and `get_prot` and
--   `Plat_WriteMemory` (Scanner/Pages). Memory is a byte for each address.
-- * Plugin is `Load` and `Unload` as the effects they have in order, `OnMetamodQuery`, `ParseCfg`,
--   the console commands (Plugin/Commands, with what they are asked for in Plugin/Granted), and the
--   event filter (Plugin/Events).
-- * Base has what all of them share, and Samples the values that the tests run on.
--
-- The modules below a part state what holds of it, under the name of what they show; a module named
-- Tests has runs on concrete values.
--
-- Choices. A number is a natural number, and a Steam id or addon id of 64 bits is one below 2 ^ 64.
-- `CUtlVector` and `std::vector` are lists, a `std::set` is an ascending list, an unordered map is a
-- function to `Option`. `double` is the parameter `Floats`: a difference, two comparisons and 0. A
-- reading of the clock is a parameter too: `clock k` is the k-th one of a call. The two `while (true)`
-- loops of the parser run on fuel, one more than the bytes of the document; each of their rounds
-- reads a byte at least, so the fuel never runs out. `bNeedPair` and `bInnerNeedPair` are true
-- wherever they are tested, and are left out. What the engine answers (the string comparison
-- `V_stricmp`, files and directories, the number in a string) is a parameter.
--
-- The searches for a virtual table run on fuel: a search goes on behind each match, so more fuel than
-- the memory has addresses is enough. An address of 64 bits wraps where the code subtracts from it
-- or adds to it, and not inside a scan.
--
-- Not modelled: logging, assertions, `PrintDownloadProgress` and the printing of search paths; the
-- repetition of the global list in the convar `mm_client_extra_addons`; what a signon message of
-- `GetAddonSignonStateMessage` has beside its addons; the class declarations of
-- src/serversideclient.h and of the public interface, which have no behaviour; the calls of the
-- hooking library, and `LookupSignature`, which is a part of it.
pub mod Base
pub mod Prefs
pub mod Addons
pub mod Clients
pub mod Connection
pub mod SignOn
pub mod Reconnect
pub mod Host
pub mod ClientLists
pub mod Store
pub mod Downloads
pub mod Mounts
pub mod Scanner
pub mod Plugin
pub mod Samples
