-- ===== src/Plugin/Tests.antt =====
-- A load with all that it needs, a file of two commands, and a console command.
use multi_addon_rss.Addons.{contains, is_empty}
use multi_addon_rss.Base.{
  Bool, Bytes, [], codes, equal, if◌then◌else◌, false, refl, some, true, ◌++◌, ◌∷◌, ◌≡◌, ◌↔◌,
}
use multi_addon_rss.Plugin.{
  Hook, Lookup, commands_of, drop_return, load, on_metamod_query, parse_cfg, read_lines,
  rss_assets_interface,
}
use multi_addon_rss.Plugin.Commands.{mm_add_addon, mounted_state, run_command}
use multi_addon_rss.Plugin.Config.{parse_cfg-with_returns, with_returns}
use multi_addon_rss.Plugin.Life.{IsGuarded, count, installed_after, load-IsGuarded}
use multi_addon_rss.Plugin.Granted.{IsGranted, asks_for, asks_nothing}
use multi_addon_rss.Plugin.Requests.{run_command-IsGranted}
use multi_addon_rss.Samples.{
  map_addon, nat_floats, plain_addon, sample_engine, sample_server, sample_steam,
}

abbrev found_all : Lookup → Bool
found_all l = true

load-IsGuarded_example :
    let r = load true found_all true true in
    IsGuarded false r.1
    × ((r.0 ≡ true) ↔ ((true ≡ true) × ((l : Lookup) → found_all l ≡ true)))
    × ((h : Hook) → count h (installed_after [] r.1) ≡ (if r.0 then 1 else 0))
load-IsGuarded_example = load-IsGuarded true found_all true true

abbrev config_text : Bytes
config_text = codes "mm_addon_debug 1" ++ 10 ∷ 10 ∷ codes "status"

parse_cfg-with_returns_example :
    parse_cfg (some (with_returns config_text)) ≡ parse_cfg (some config_text)
parse_cfg-with_returns_example = parse_cfg-with_returns config_text refl

two_commands : parse_cfg (some config_text) ≡ codes "mm_addon_debug 1" ∷ codes "status" ∷ []
unfolding read_lines commands_of drop_return is_empty
two_commands = refl

asked_for_rss :
    on_metamod_query (codes "A003") (codes "A004") (codes "A004")
    ≡ (some rss_assets_interface, true)
unfolding on_metamod_query equal
asked_for_rss = refl

run_command-IsGranted_example :
    let after =
      run_command nat_floats sample_engine sample_steam mm_add_addon
        (codes "mm_add_addon" ∷ map_addon ∷ [])
        sample_server in
    IsGranted (asks_for map_addon) (plain_addon ∷ []) after.manager.extra_addons
    × IsGranted asks_nothing [] after.manager.global_client_addons
    × (after.downloads ≡ sample_server.downloads)
    × (mounted_state after ≡ mounted_state sample_server)
unfolding contains
run_command-IsGranted_example =
    run_command-IsGranted nat_floats sample_engine sample_steam mm_add_addon
      (codes "mm_add_addon" ∷ map_addon ∷ []) sample_server (refl, tt) tt
