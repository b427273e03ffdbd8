-- ===== src/Connection/Tests.antt =====
-- A client's first connection.
use multi_addon_rss.Addons.{contains, is_empty, is_nil, is_rss_asset_addon, vector_to_string}
use multi_addon_rss.Base.{[], equal, refl, ◌∷◌, ◌≡◌}
use multi_addon_rss.Clients.{
  add_all_listed, add_listed, collect_addons, get_client_addons, is_client_rss_assets_enabled,
  is_skipped, skip_rss_assets,
}
use multi_addon_rss.Connection.{
  expire_cache, first_pending, hook_reply_connection, keep_known, reply_required, reply_staged,
  start_connecting, touch_client,
}
use multi_addon_rss.Prefs.IdSet.{member}
use multi_addon_rss.Samples.{nat_floats, rss_addon, sample_manager, sample_settings, steady_clock}

first_reply :
    (hook_reply_connection nat_floats sample_settings steady_clock sample_manager 5 []).sent
    ≡ rss_addon ∷ []
unfolding hook_reply_connection touch_client expire_cache reply_required reply_staged first_pending
    keep_known start_connecting get_client_addons collect_addons skip_rss_assets
    is_client_rss_assets_enabled add_all_listed add_listed is_skipped is_rss_asset_addon contains
    equal member is_empty is_nil vector_to_string
first_reply = refl
