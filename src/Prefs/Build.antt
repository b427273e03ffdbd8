-- ===== src/Prefs/Build.antt =====
-- `BuildRssAssetPreferencesJson`.
use multi_addon_rss.Base.{Bool, Bytes, [], codes, if◌then◌else◌, length, ltb, ℕ, ◌++◌, ◌+◌, ◌∷◌}
use multi_addon_rss.Prefs.IdSet.{IdSet}
use multi_addon_rss.Prefs.Decimal.{decimal}

abbrev pub json_head : Bytes
json_head =
    codes "{\n"
    ++ (codes "  // true skips the five staged RSS asset checks and fast-mounts cached assets.\n"
        ++ (codes "  // Missing IDs default to ON and use the normal staged download flow.\n"
            ++ (codes "  \"version\": 1,\n" ++ codes "  \"opt_out_steam_ids\": {\n")))

abbrev pub json_tail : Bytes
json_tail = codes "  }\n}\n"

-- `snprintf(szLine, sizeof(szLine), "    \"%s\": true%s\n", …)`.
unfoldable pub entry_line : ℕ → Bool → Bytes
entry_line v comma =
    codes "    \""
    ++ (decimal v ++ (codes "\": true" ++ ((if comma then codes "," else []) ++ codes "\n")))

-- The loop, on `json` so far, the index and the set's size.
unfoldable pub append_entries : Bytes → ℕ → ℕ → IdSet → Bytes
unfolding entry_line
append_entries json index size [] = json
append_entries json index size (v ∷ vs) =
    append_entries (json ++ entry_line v (ltb (index + 1) size)) (index + 1) size vs

unfoldable pub build_rss_asset_preferences_json : IdSet → Bytes
unfolding append_entries
build_rss_asset_preferences_json ids = append_entries json_head 0 (length ids) ids ++ json_tail
