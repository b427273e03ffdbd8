-- ===== src/SignOn/Tests.antt =====
-- Messages to the sample clients.
use multi_addon_rss.Addons.{contains, find_and_remove, is_empty, is_rss_asset_addon, remove_each}
use multi_addon_rss.Base.{[], ap, codes, equal, refl, some, true, ℕ, ◌∷◌, ◌≡◌}
use multi_addon_rss.Clients.{
  ClientAddonInfo, Manager, add_all_listed, add_listed, client_info, collect_addons,
  get_client_addons, is_client_rss_assets_enabled, is_skipped, new_client, put_client,
  skip_rss_assets,
}
use multi_addon_rss.Prefs.IdSet.{member}
use multi_addon_rss.Samples.{nat_floats, plain_addon, rss_addon, sample_manager}
use multi_addon_rss.SignOn.{
  Sending, changelevel, hook_send_net_message, missing_addons, other_state, signon,
}
use multi_addon_rss.SignOn.Level.{IsSendable, send_changelevel_single}
use multi_addon_rss.SignOn.Orders.{IsOrder, send-IsOrder}
use multi_addon_rss.SignOn.Staged.{send_complete}

all_missing : missing_addons nat_floats sample_manager 5 ≡ rss_addon ∷ plain_addon ∷ []
unfolding missing_addons remove_each get_client_addons collect_addons skip_rss_assets
    is_client_rss_assets_enabled add_all_listed add_listed is_skipped is_rss_asset_addon contains
    equal member is_empty
all_missing = refl

-- The client 5 has all.
abbrev loaded : ClientAddonInfo ℕ
loaded = record (new_client nat_floats) { downloaded_addons = rss_addon ∷ plain_addon ∷ [] }

abbrev loaded_manager : Manager ℕ
loaded_manager = put_client 5 loaded sample_manager

none_missing : missing_addons nat_floats loaded_manager 5 ≡ []
unfolding missing_addons remove_each find_and_remove get_client_addons collect_addons
    skip_rss_assets is_client_rss_assets_enabled add_all_listed add_listed is_skipped
    is_rss_asset_addon contains equal member is_empty
none_missing = refl

send-IsOrder_example :
    IsOrder nat_floats sample_manager 5 3 []
      (hook_send_net_message nat_floats true 50 sample_manager 5 (signon (other_state 3) []))
      (some rss_addon)
unfolding missing_addons remove_each get_client_addons collect_addons skip_rss_assets
    is_client_rss_assets_enabled add_all_listed add_listed is_skipped is_rss_asset_addon contains
    equal member is_empty
send-IsOrder_example = send-IsOrder nat_floats 50 sample_manager 5 3 []

-- The client 5 with all that it needs: nothing is left.
nothing_ordered :
    (hook_send_net_message nat_floats true 50 loaded_manager 5 (signon (other_state 3) [])).message
    ≡ signon (other_state 3) []
nothing_ordered =
    ap (λ (r : Sending ℕ). r.message)
      (send_complete nat_floats 50 loaded_manager 5 3 [] none_missing)

send_changelevel_single_example :
    let r =
      hook_send_net_message nat_floats true 50 sample_manager 7
        (signon changelevel (codes "3777226686,55")) in
    let a = (client_info nat_floats r.manager 7).current_pending_addon in
    (r.message ≡ signon changelevel a)
    × IsSendable (is_client_rss_assets_enabled sample_manager 7) [] (codes "3777226686,55") a
send_changelevel_single_example =
    send_changelevel_single nat_floats 50 sample_manager 7 (codes "3777226686,55")
