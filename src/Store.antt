-- ===== src/Store.antt =====
-- The files behind the preferences, in src/multiaddonmanager.cpp: `SaveRssAssetOptOutClientsLocked`,
-- `LoadRssAssetOptOutClients` and `SetClientRssAssetsEnabled`. The file system of the engine is a
-- parameter, with its states and its file handles.
pub mod Saves
pub mod Loads
pub mod Reload
pub mod Setter
pub mod Service
pub mod Sessions
mod Disks
mod Tests
use multi_addon_rss.Addons.{flush, is_rss_asset_addon}
use multi_addon_rss.Base.{
  Bool, Bytes, List, Option, [], false, if◌then◌else◌, length, ltb, none, not, some, true, ℕ, ◌&&◌,
  ◌==◌, ◌∷◌,
}
use multi_addon_rss.Clients.{ClientAddonInfo, ClientMap, Manager}
use multi_addon_rss.Prefs.Build.{build_rss_asset_preferences_json}
use multi_addon_rss.Prefs.Change.{Change, apply_rss_preference_change}
use multi_addon_rss.Prefs.IdSet.{IdSet}
use multi_addon_rss.Prefs.Legacy.{collect_legacy_opt_out_ids}
use multi_addon_rss.Prefs.Parse.{parse_rss_asset_preferences}

-- `g_RssAssetPreferencesPath`, `g_RssAssetPreferencesTempPath` and `g_RssAssetLegacyOptOutPath`.
pub data StoreFile : Type 0 where
  preferences_file temp_file legacy_file : StoreFile

pub data OpenMode : Type 0 where
  for_reading for_writing : OpenMode

-- The calls of `IFileSystem`. `read h n` gives `bytesRead` and the `n` bytes of the buffer, and
-- `read_lines` the lines that the calls of `ReadLine` give until there is none.
pub record FileSystem (W H : Type 0) : Type 0 where
  pub file_exists : StoreFile → W → Bool
  pub create_dirs : StoreFile → W → W
  pub open_file : StoreFile → OpenMode → W → Option H × W
  pub size : H → W → ℕ
  pub read : H → ℕ → W → (ℕ × Bytes) × W
  pub read_lines : H → W → List Bytes × W
  pub is_ok : H → W → Bool
  pub write : Bytes → H → W → ℕ × W
  pub flush : H → W → W
  pub close : H → W → W
  pub remove_file : StoreFile → W → W
  pub rename_file : StoreFile → StoreFile → W → Bool × W

-- The members behind a load, the latch, and the files.
pub record Loaded (W : Type 0) : Type 0 where
  pub members : IdSet
  pub writable : Bool
  pub files : W

abbrev pub not_loaded : {W : Type 0} → W → Loaded W
not_loaded w = record { members = []; writable = false; files = w }

module _ {W H : Type 0} (fs : FileSystem W H) where
  -- The end of a save: the file is written, whether or not well, and closed.
  unfoldable pub publish_temp : Bool → W → Bool × W
  publish_temp success w =
      let renamed = fs.rename_file temp_file preferences_file w in
      if not success
      then (false, fs.remove_file temp_file w)
      else if not renamed.0
      then (false, fs.remove_file temp_file renamed.1)
      else (true, renamed.1)

  unfoldable pub write_temp : Bytes → Option H → W → Bool × W
  write_temp json none w = (false, w)
  write_temp json (some h) w =
      let written = fs.write json h w in
      let flushed = fs.flush h written.1 in
      publish_temp (written.0 == length json && fs.is_ok h flushed) (fs.close h flushed)

  -- `SaveRssAssetOptOutClientsLocked`
  unfoldable pub save_opt_out_clients : IdSet → W → Bool × W
  save_opt_out_clients ids w =
      let opened = fs.open_file temp_file for_writing (fs.create_dirs preferences_file w) in
      write_temp (build_rss_asset_preferences_json ids) opened.0 opened.1

  -- What is parsed is taken over where the parse succeeds.
  unfoldable pub take_parsed : Bool × IdSet → W → Loaded W
  take_parsed parsed w =
      if parsed.0 then record { members = parsed.1; writable = true; files = w } else not_loaded w

  unfoldable pub load_preferences : Option H → W → Loaded W
  load_preferences none w = not_loaded w
  load_preferences (some h) w =
      let size = fs.size h w in
      let got = if size == 0 then ((0, []), w) else fs.read h size w in
      if ltb 1048576 size
      then not_loaded (fs.close h w)
      else if not (got.0.0 == size)
      then not_loaded (fs.close h got.1)
      else take_parsed (parse_rss_asset_preferences got.0.1 []) (fs.close h got.1)

  -- The members are kept only where they could be saved.
  unfoldable pub migrate : IdSet → W → Loaded W
  migrate ids w =
      let saved = save_opt_out_clients ids w in
      if saved.0
      then record { members = ids; writable = true; files = saved.1 }
      else not_loaded saved.1

  unfoldable pub load_legacy : Option H → W → Loaded W
  load_legacy none w = not_loaded w
  load_legacy (some h) w =
      let got = fs.read_lines h w in
      let collected = collect_legacy_opt_out_ids got.0 (fs.is_ok h got.1) [] in
      let closed_files = fs.close h got.1 in
      if collected.0 then migrate collected.1 closed_files else not_loaded closed_files

  -- `LoadRssAssetOptOutClients`
  unfoldable pub load_opt_out_clients : W → Loaded W
  load_opt_out_clients w =
      let main = fs.open_file preferences_file for_reading w in
      let legacy = fs.open_file legacy_file for_reading w in
      if fs.file_exists preferences_file w
      then load_preferences main.0 main.1
      else if fs.file_exists legacy_file w
      then load_legacy legacy.0 legacy.1
      else migrate [] w

-- The loop over `downloadedAddons` of the cache callback.
unfoldable pub without_rss_assets : List Bytes → List Bytes
without_rss_assets [] = []
without_rss_assets (a ∷ addons) =
    if is_rss_asset_addon a then without_rss_assets addons else a ∷ without_rss_assets addons

unfoldable pub drop_rss_cache : {T : Type 0} → ClientAddonInfo T → ClientAddonInfo T
drop_rss_cache info = record info {
  downloaded_addons = without_rss_assets info.downloaded_addons;
  current_pending_addon =
      if is_rss_asset_addon info.current_pending_addon then [] else info.current_pending_addon;
}

abbrev pub drop_entry_cache : {T : Type 0} → Option (ClientAddonInfo T) → Option (ClientAddonInfo T)
drop_entry_cache none = none
drop_entry_cache (some info) = some (drop_rss_cache info)

-- The cache callback, which acts on an entry that is there.
unfoldable pub clear_rss_cache : {T : Type 0} → ℕ → Bool → ClientMap T → ClientMap T
clear_rss_cache id enabled clients = if not enabled then clients else λ j.
    if j == id then drop_entry_cache (clients j) else clients j

-- The result, the manager and the files behind a call of the setter.
pub record Setting (T W : Type 0) : Type 0 where
  pub result : Bool
  pub manager : Manager T
  pub files : W

module _ {T W H : Type 0} (fs : FileSystem W H) where
  -- The two callbacks, on the files and `g_ClientAddons`.
  abbrev pub persist_members : IdSet → W × ClientMap T → Bool × (W × ClientMap T)
  persist_members ids s = let saved = save_opt_out_clients fs ids s.0 in (saved.0, (saved.1, s.1))

  abbrev pub cache_persisted : ℕ → Bool → W × ClientMap T → W × ClientMap T
  cache_persisted id enabled s = (s.0, clear_rss_cache id enabled s.1)

  -- The preference change, on the manager's members.
  abbrev pub change_of : Manager T → ℕ → Bool → W → Change (W × ClientMap T)
  change_of m id enabled w =
      apply_rss_preference_change persist_members (cache_persisted id enabled)
        m.rss_asset_preferences_writable m.rss_asset_opt_out_clients id enabled (w, m.client_addons)

  abbrev pub setting_of : Manager T → Change (W × ClientMap T) → Setting T W
  setting_of m c = record {
    result = c.result;
    manager = record m {
      rss_asset_opt_out_clients = c.members;
      rss_asset_preferences_writable = c.latch;
      client_addons = c.world.1;
    };
    files = c.world.0;
  }

  -- `SetClientRssAssetsEnabled`
  unfoldable pub set_client_rss_assets_enabled : Manager T → ℕ → Bool → W → Setting T W
  set_client_rss_assets_enabled m id enabled w =
      if id == 0
      then record { result = false; manager = m; files = w }
      else setting_of m (change_of m id enabled w)
