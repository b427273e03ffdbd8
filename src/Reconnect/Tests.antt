-- ===== src/Reconnect/Tests.antt =====
-- Two addons, fetched in two rounds.
use multi_addon_rss.Addons.{contains, is_empty, is_rss_asset_addon, remove_each}
use multi_addon_rss.Base.{List, [], ap, equal, length, refl, subst, sym, true, ℕ, ◌∷◌, ◌≡◌}
use multi_addon_rss.Clients.{
  add_all_listed, add_listed, collect_addons, get_client_addons, is_client_rss_assets_enabled,
  is_skipped, new_client, skip_rss_assets,
}
use multi_addon_rss.Prefs.IdSet.{member}
use multi_addon_rss.Reconnect.{mount_skipped, settle_pending}
use multi_addon_rss.Reconnect.FastMount.{mount_skipped-settle_pending}
use multi_addon_rss.Reconnect.Progress.{AllNonempty, Visit, download_rounds, downloads_complete}
use multi_addon_rss.Samples.{
  nat_floats, plain_addon, rss_addon, sample_manager, sample_settings, steady_clock,
}
use multi_addon_rss.SignOn.{missing_addons}

all_missing : missing_addons nat_floats sample_manager 5 ≡ rss_addon ∷ plain_addon ∷ []
unfolding missing_addons remove_each get_client_addons collect_addons skip_rss_assets
    is_client_rss_assets_enabled add_all_listed add_listed is_skipped is_rss_asset_addon contains
    equal member is_empty
all_missing = refl

client_enabled : is_client_rss_assets_enabled sample_manager 5 ≡ true
unfolding is_client_rss_assets_enabled member
client_enabled = refl

abbrev visits : List (Visit ℕ)
visits =
    record { state = 3; addons = []; now = 98; clock = steady_clock }
    ∷ record { state = 3; addons = []; now = 99; clock = steady_clock }
    ∷ []

downloads_complete_example :
    missing_addons nat_floats (download_rounds nat_floats sample_settings visits sample_manager 5) 5
    ≡ []
downloads_complete_example =
    downloads_complete nat_floats sample_settings visits sample_manager 5 (ap length all_missing)
      refl client_enabled
      (subst AllNonempty (sym all_missing) (unfold is_empty in refl, (unfold is_empty in refl, tt)))
      (refl, (refl, tt))

mount_skipped-settle_pending_example :
    mount_skipped nat_floats sample_settings steady_clock sample_manager 7 (new_client nat_floats)
    ≡ settle_pending nat_floats sample_settings steady_clock sample_manager 7
        (new_client nat_floats)
mount_skipped-settle_pending_example =
    mount_skipped-settle_pending nat_floats sample_settings steady_clock sample_manager 7
      (new_client nat_floats)
