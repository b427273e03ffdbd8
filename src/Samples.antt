-- ===== src/Samples.antt =====
-- The values that the tests run on.
use multi_addon_rss.Addons.{contains, find_and_remove}
use multi_addon_rss.Base.{
  Bytes, List, [], codes, false, length, ltb, none, not, take, true, ℕ, ◌++◌, ◌+◌, ◌-◌, ◌==◌, ◌∷◌,
}
use multi_addon_rss.Clients.{Floats, Manager}
use multi_addon_rss.Connection.{Settings}
use multi_addon_rss.Downloads.{Steam}
use multi_addon_rss.Mounts.{Engine, Server, build_addon_path}

abbrev pub nat_floats : Floats ℕ
nat_floats = record {
  sub = λ a b. a - b;
  gt = λ a b. ltb b a;
  ne = λ a b. not (a == b);
  zero_time = 0;
}

abbrev pub sample_settings : Settings ℕ
sample_settings = record {
  cache_clients_with_addons = true;
  cache_clients_duration = 0;
  addon_connection_timeout = 30;
  extra_addons_timeout = 10;
  is_dedicated_server = true;
}

abbrev pub rss_addon : Bytes
rss_addon = codes "3777226686"

abbrev pub plain_addon : Bytes
plain_addon = codes "55"

abbrev pub map_addon : Bytes
map_addon = codes "77"

-- Two addons are mounted, and the client 7 opted out.
abbrev pub sample_manager : Manager ℕ
sample_manager = record {
  extra_addons = [];
  mounted_addons = rss_addon ∷ plain_addon ∷ [];
  global_client_addons = [];
  current_workshop_map = [];
  timed_out_clients = [];
  rss_asset_opt_out_clients = 7 ∷ [];
  rss_asset_preferences_writable = true;
  client_addons = λ id. none;
}

abbrev pub map_manager : Manager ℕ
map_manager = record sample_manager { current_workshop_map = map_addon }

abbrev pub steady_clock : ℕ → ℕ
steady_clock k = 100 + k

-- `X_dir.vpk` for `X.vpk`.
abbrev with_dir : Bytes → Bytes
with_dir path = take (length path - 4) path ++ codes "_dir.vpk"

-- An engine whose search paths are a list, a Steam that has all addons, and a server. The engine
-- appends the suffix of the file that is there, and removes a path only if it has it.
abbrev pub sample_engine : Engine (List Bytes)
sample_engine = record {
  working_dir = codes "/srv/";
  max_path = 260;
  map_name = codes "de_dust2";
  is_dedicated = true;
  mount_download = false;
  is_official = λ map. false;
  path_exists = λ path. true;
  add_search_path = λ path to_tail paths. with_dir path ∷ paths;
  remove_search_path = λ path paths. (contains path paths, find_and_remove path paths);
  fast_remove = find_and_remove;
}

abbrev pub sample_steam : Steam
sample_steam = record {
  has_ugc = true;
  is_legacy = λ id. false;
  is_installed = λ id. true;
  download_item = λ id. true;
  to_uint64 = λ s. 13;
}

abbrev pub sample_server : Server ℕ (List Bytes)
sample_server = record {
  manager = record sample_manager { extra_addons = plain_addon ∷ [] };
  downloads = record { important = 12 ∷ []; queue = 11 ∷ 12 ∷ [] };
  extra_addons_convar = plain_addon;
  search_paths =
      build_addon_path sample_engine plain_addon false
      ∷ build_addon_path sample_engine rss_addon false
      ∷ [];
  commands = [];
}
