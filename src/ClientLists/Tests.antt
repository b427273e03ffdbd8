-- ===== src/ClientLists/Tests.antt =====
-- Changes of the lists of the sample server.
use multi_addon_rss.Addons.{contains, is_empty, is_nil, is_rss_asset_addon, remove_each}
use multi_addon_rss.Base.{List, [], equal, false, length, refl, true, ◌∷◌, ◌≡◌, ◌≤◌}
use multi_addon_rss.ClientLists.{
  ConnectedClient, add_client_addon, client_list, remove_client_addon, set_client_list,
  tell_clients,
}
use multi_addon_rss.ClientLists.Notices.{add_client_addon_told, remove-add}
use multi_addon_rss.Clients.{
  add_all_listed, add_listed, collect_addons, get_client_addons, is_client_rss_assets_enabled,
  is_skipped, skip_rss_assets,
}
use multi_addon_rss.Prefs.IdSet.{member}
use multi_addon_rss.Samples.{map_addon, nat_floats, sample_manager}
use multi_addon_rss.SignOn.{missing_addons, other_state}

abbrev two_clients : List ConnectedClient
two_clients =
    record { steam_id = 5; signon_state = other_state 3 }
    ∷ record { steam_id = 7; signon_state = other_state 3 }
    ∷ []

-- Two clients lack the addon, and one is told.
global_told :
    (add_client_addon nat_floats true two_clients sample_manager map_addon 0 true).told ≡ 5 ∷ []
unfolding add_client_addon tell_clients missing_addons remove_each get_client_addons collect_addons
    skip_rss_assets is_client_rss_assets_enabled add_all_listed add_listed is_skipped
    is_rss_asset_addon contains equal member is_empty is_nil
global_told = refl

no_empty_addon :
    contains [] (
      get_client_addons nat_floats
        (set_client_list nat_floats 0 (map_addon ∷ []) sample_manager)
        0
        false)
    ≡ false
unfolding get_client_addons collect_addons skip_rss_assets is_client_rss_assets_enabled
    add_all_listed add_listed is_skipped is_rss_asset_addon contains equal member is_empty
no_empty_addon = refl

add_client_addon_told_example :
    length (add_client_addon nat_floats true two_clients sample_manager map_addon 0 true).told ≤ 1
add_client_addon_told_example =
    add_client_addon_told nat_floats true two_clients sample_manager map_addon 0 true no_empty_addon

remove-add_example :
    client_list nat_floats
      (remove_client_addon nat_floats
        (add_client_addon nat_floats false [] sample_manager map_addon 5 false).manager
        map_addon
        5)
      5
    ≡ []
remove-add_example = remove-add nat_floats sample_manager map_addon 5 (unfold contains in refl)
