-- ===== src/Clients/Tests.antt =====
-- The lists of some clients.
use multi_addon_rss.Addons.{contains, is_empty, is_rss_asset_addon}
use multi_addon_rss.Base.{[], equal, false, if◌then◌else◌, not, refl, true, ◌&&◌, ◌||◌, ◌∷◌, ◌≡◌}
use multi_addon_rss.Clients.{
  add_all_listed, add_listed, collect_addons, get_client_addons, is_client_rss_assets_enabled,
  is_skipped, skip_rss_assets,
}
use multi_addon_rss.Clients.Added.{drop_skipped}
use multi_addon_rss.Clients.Needed.{
  contains-get_client_addons, first_of_map, is_listed, required_of_full,
}
use multi_addon_rss.Prefs.IdSet.{member}
use multi_addon_rss.Samples.{nat_floats, plain_addon, rss_addon, sample_manager}

contains-get_client_addons_example :
    contains rss_addon (get_client_addons nat_floats sample_manager 7 false) ≡ (
      contains rss_addon (first_of_map [])
      || (is_listed nat_floats sample_manager 7 rss_addon
          && not (is_skipped (skip_rss_assets sample_manager 7 false) [] rss_addon)))
contains-get_client_addons_example =
    contains-get_client_addons nat_floats sample_manager 7 false rss_addon

required_of_full_example : get_client_addons nat_floats sample_manager 7 false ≡ (
    if is_client_rss_assets_enabled sample_manager 7
    then get_client_addons nat_floats sample_manager 7 true
    else drop_skipped [] (get_client_addons nat_floats sample_manager 7 true))
required_of_full_example = required_of_full nat_floats sample_manager 7

opted_out_list : get_client_addons nat_floats sample_manager 7 false ≡ plain_addon ∷ []
unfolding get_client_addons collect_addons skip_rss_assets is_client_rss_assets_enabled
    add_all_listed add_listed is_skipped is_rss_asset_addon contains equal member is_empty
opted_out_list = refl
