-- ===== src/Host/Tests.antt =====
-- Level changes and kicks of the sample server.
use multi_addon_rss.Addons.{
  contains, find_and_remove, is_empty, is_nil, string_to_vector, vector_to_string,
}
use multi_addon_rss.Addons.Lists.{Distinct}
use multi_addon_rss.Addons.Split.{AllIds, has_comma}
use multi_addon_rss.Base.{
  Bytes, [], arith, codes, equal, false, none, not, refl, ℕ, ◌&&◌, ◌||◌, ◌∷◌, ◌≡◌, ◌⊎◌,
}
use multi_addon_rss.Clients.{Manager}
use multi_addon_rss.Host.{
  HostQueries, HostStateRequest, hook_game_frame, hook_set_pending_host_state_request,
  rebuilt_addons, requested_map, settled_map,
}
use multi_addon_rss.Host.Kicks.{IsOut, game_frame_kicks, is_client}
use multi_addon_rss.Host.Requests.{request_addons}
use multi_addon_rss.Prefs.IdSet.{member}
use multi_addon_rss.Samples.{map_addon, map_manager, nat_floats, plain_addon, sample_manager}

abbrev sample_queries : HostQueries
sample_queries = record {
  same_name = equal;
  is_valve_map = λ name. equal name (codes "de_dust2");
  is_official_addon = λ addon. equal addon (codes "de_dogtown");
}

abbrev extra_manager : Manager ℕ
extra_manager = record map_manager { extra_addons = plain_addon ∷ map_addon ∷ [] }

abbrev vote_request : HostStateRequest
vote_request = record { keys = none; level_name = codes "de_x"; addons = map_addon }

extra_ids : AllIds (plain_addon ∷ map_addon ∷ [])
unfolding is_empty
extra_ids = ((refl, refl), ((refl, refl), tt))

extra_ids-Distinct : Distinct (plain_addon ∷ map_addon ∷ [])
unfolding contains equal
extra_ids-Distinct = (refl, (refl, tt))

request_run :
    (hook_set_pending_host_state_request sample_queries extra_manager vote_request).1.addons
    ≡ codes "77,55"
unfolding hook_set_pending_host_state_request settled_map requested_map rebuilt_addons
    vector_to_string find_and_remove equal is_nil is_empty
request_run = refl

vote_map : has_comma (settled_map sample_queries vote_request map_addon) ≡ false
unfolding settled_map requested_map is_empty equal
vote_map = refl

request_addons_example :
    let after = hook_set_pending_host_state_request sample_queries extra_manager vote_request in
    let map = after.0.current_workshop_map in
    let l = string_to_vector after.1.addons in
    Distinct l
    × ((a : Bytes)
        → contains a l
          ≡ ((not (is_empty map) && equal map a) || contains a (plain_addon ∷ map_addon ∷ [])))
request_addons_example =
    request_addons sample_queries extra_manager vote_request (unfold is_nil in refl) extra_ids
      extra_ids-Distinct vote_map

abbrev late_manager : Manager ℕ
late_manager = record sample_manager { timed_out_clients = 5 ∷ 9 ∷ [] }

game_frame_kicks_example :
    let after = hook_game_frame nat_floats late_manager (5 ∷ 7 ∷ []) in
    (is_client 5 after.1 ≡ (is_client 5 (5 ∷ 7 ∷ []) && member 5 (5 ∷ 9 ∷ [])))
    × (member 5 after.0.timed_out_clients
        ≡ (member 5 (5 ∷ 9 ∷ []) && not (is_client 5 (5 ∷ 7 ∷ []))))
    × ((is_client 5 after.1 ≡ false) ⊎ IsOut nat_floats after.0 5)
game_frame_kicks_example =
    game_frame_kicks nat_floats late_manager (5 ∷ 7 ∷ []) 5 (omega arith, (omega arith, tt))
