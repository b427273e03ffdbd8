-- ===== src/Plugin/Life.antt =====
-- What `Load` and `Unload` leave installed, and in which order `Load` goes.
use multi_addon_rss.Base.{
  Bool, List, [], ap, arith, false, if◌then◌else◌, not, refl, subst, suc, sym, true, ℕ, ◌&&◌, ◌++◌,
  ◌==◌, ◌↔◌, ◌∙◌, ◌∷◌, ◌≡◌,
}
use multi_addon_rss.Plugin.{
  Effect, Hook, Lookup, adds_listener, all_found, can_hltv_client_connect, clears_addons,
  client_active, client_connect, client_disconnect, each, function_hooks, game_event_manager_table,
  game_frame, game_server_steam_api_activated, hltv_client_table, host_state_request, installs,
  load, load_events_from_file, loads_preferences, looks_up, lookups, parses_cfg,
  post_event_abstract, registers_convars, registers_downloads, reply_connection,
  reply_connection_hook, script_get_addon, script_get_addon_hook, send_net_message_hltv_client,
  send_net_message_server_side_client, server_side_client_table, set_pending_host_state_request,
  start, startup_server, uninstalls, unload, virtual_hooks,
}

-- The hooks that a run of effects leaves, from those before it.
abbrev index : Hook → ℕ
index set_pending_host_state_request = 0
index reply_connection_hook = 1
index script_get_addon_hook = 2
index client_connect = 3
index can_hltv_client_connect = 4
index client_disconnect = 5
index client_active = 6
index game_server_steam_api_activated = 7
index game_frame = 8
index startup_server = 9
index post_event_abstract = 10
index load_events_from_file = 11
index send_net_message_server_side_client = 12
index send_net_message_hltv_client = 13

unfoldable pub without_hook : Hook → List Hook → List Hook
without_hook h [] = []
without_hook h (k ∷ ks) =
    let rest = without_hook h ks in if index h == index k then rest else k ∷ rest

unfoldable pub installed_after : List Hook → List Effect → List Hook
installed_after hooks [] = hooks
installed_after hooks (installs h ∷ es) = installed_after (hooks ++ h ∷ []) es
installed_after hooks (uninstalls h ∷ es) = installed_after (without_hook h hooks) es
installed_after hooks (adds_listener ∷ es) = installed_after hooks es
installed_after hooks (looks_up l ∷ es) = installed_after hooks es
installed_after hooks (loads_preferences ∷ es) = installed_after hooks es
installed_after hooks (registers_downloads ∷ es) = installed_after hooks es
installed_after hooks (registers_convars ∷ es) = installed_after hooks es
installed_after hooks (parses_cfg ∷ es) = installed_after hooks es
installed_after hooks (clears_addons ∷ es) = installed_after hooks es

-- A hook is installed only where the preferences are loaded.
pub data IsGuarded : Bool → List Effect → Type 0 where
  ended : {b : Bool} → IsGuarded b []
  loading : {b : Bool} {es : List Effect} → IsGuarded true es → IsGuarded b (loads_preferences ∷ es)
  installing : {h : Hook} {es : List Effect} → IsGuarded true es → IsGuarded true (installs h ∷ es)
  uninstalling :
      {b : Bool} {h : Hook} {es : List Effect} → IsGuarded b es → IsGuarded b (uninstalls h ∷ es)
  looking_up :
      {b : Bool} {l : Lookup} {es : List Effect} → IsGuarded b es → IsGuarded b (looks_up l ∷ es)
  listening : {b : Bool} {es : List Effect} → IsGuarded b es → IsGuarded b (adds_listener ∷ es)
  registering_downloads :
      {b : Bool} {es : List Effect} → IsGuarded b es → IsGuarded b (registers_downloads ∷ es)
  registering_convars :
      {b : Bool} {es : List Effect} → IsGuarded b es → IsGuarded b (registers_convars ∷ es)
  parsing : {b : Bool} {es : List Effect} → IsGuarded b es → IsGuarded b (parses_cfg ∷ es)
  clearing : {b : Bool} {es : List Effect} → IsGuarded b es → IsGuarded b (clears_addons ∷ es)

installing_each :
    (hooks : List Hook) (es : List Effect)
    → IsGuarded true es
    → IsGuarded true (each installs hooks ++ es)
unfolding each
installing_each [] es g = g
installing_each (h ∷ hs) es g = installing (installing_each hs es g)

looking_up_each :
    (ls : List Lookup) (es : List Effect)
    → IsGuarded false es
    → IsGuarded false (each looks_up ls ++ es)
unfolding each
looking_up_each [] es g = g
looking_up_each (l ∷ ls) es g = looking_up (looking_up_each ls es g)

start-IsGuarded : (late dedicated : Bool) → IsGuarded false (start late dedicated)
unfolding start
start-IsGuarded late dedicated =
    loading
      (installing_each function_hooks _ (installing_each virtual_hooks _ (go (late && dedicated))))
  where
    go :
        (b : Bool)
        → IsGuarded true
            ((if b then registers_downloads ∷ [] else []) ++ registers_convars ∷ parses_cfg ∷ [])
    go true = registering_downloads (registering_convars (parsing ended))
    go false = registering_convars (parsing ended)

-- `Load`, for what became of the lookups.
abbrev outcome : Bool → Bool → Bool → Bool → Bool × List Effect
outcome has_interfaces found late dedicated =
    let tried = adds_listener ∷ each looks_up lookups in
    if not has_interfaces
    then (false, [])
    else if not found
    then (false, tried)
    else (true, tried ++ start late dedicated)

load_lem :
    (has_interfaces : Bool) (found : Lookup → Bool) (late dedicated : Bool)
    → load has_interfaces found late dedicated
      ≡ outcome has_interfaces (all_found found lookups) late dedicated
unfolding load
load_lem has_interfaces found late dedicated = refl

tried-IsGuarded : IsGuarded false (adds_listener ∷ each looks_up lookups)
unfolding each
tried-IsGuarded =
    listening (looking_up (looking_up (looking_up (looking_up (looking_up (looking_up ended))))))

-- How often a hook stands in a list.
abbrev pub count : Hook → List Hook → ℕ
count h [] = 0
count h (k ∷ ks) = if index h == index k then suc (count h ks) else count h ks

-- Every hook once.
all_hooks_once : (h : Hook) → count h (function_hooks ++ virtual_hooks) ≡ 1
all_hooks_once set_pending_host_state_request = refl
all_hooks_once reply_connection_hook = refl
all_hooks_once script_get_addon_hook = refl
all_hooks_once client_connect = refl
all_hooks_once can_hltv_client_connect = refl
all_hooks_once client_disconnect = refl
all_hooks_once client_active = refl
all_hooks_once game_server_steam_api_activated = refl
all_hooks_once game_frame = refl
all_hooks_once startup_server = refl
all_hooks_once post_event_abstract = refl
all_hooks_once load_events_from_file = refl
all_hooks_once send_net_message_server_side_client = refl
all_hooks_once send_net_message_hltv_client = refl

-- Every lookup is tried.
found_each :
    (found : Lookup → Bool) → all_found found lookups ≡ true → (l : Lookup) → found l ≡ true
unfolding all_found
found_each found h host_state_request = ground arith
found_each found h reply_connection = ground arith
found_each found h script_get_addon = ground arith
found_each found h game_event_manager_table = ground arith
found_each found h server_side_client_table = ground arith
found_each found h hltv_client_table = ground arith

each_found :
    (found : Lookup → Bool) → ((l : Lookup) → found l ≡ true) → all_found found lookups ≡ true
unfolding all_found
each_found found h = ground (
  arith,
  h host_state_request,
  h reply_connection,
  h script_get_addon,
  h game_event_manager_table,
  h server_side_client_table,
  h hltv_client_table,
)

started_installs :
    (late dedicated : Bool)
    → installed_after [] (outcome true true late dedicated).1 ≡ function_hooks ++ virtual_hooks
unfolding start each installed_after
started_installs true true = refl
started_installs true false = refl
started_installs false true = refl
started_installs false false = refl

tried_installs : installed_after [] (adds_listener ∷ each looks_up lookups) ≡ []
unfolding each installed_after
tried_installs = refl

abbrev IsLoaded : Bool → Bool × List Effect → Type 0
IsLoaded complete r =
    IsGuarded false r.1
    × (r.0 ≡ complete)
    × ((h : Hook) → count h (installed_after [] r.1) ≡ (if complete then 1 else 0))

outcome-IsLoaded :
    (has_interfaces found late dedicated : Bool)
    → IsLoaded (has_interfaces && found) (outcome has_interfaces found late dedicated)
unfolding installed_after
outcome-IsLoaded false found late dedicated = (ended, refl, λ h. refl)
outcome-IsLoaded true false late dedicated =
    (tried-IsGuarded, refl, λ h. ap (count h) tried_installs)
outcome-IsLoaded true true late dedicated = (
  listening (looking_up_each lookups _ (start-IsGuarded late dedicated)),
  refl,
  λ h. ap (count h) (started_installs late dedicated) ∙ all_hooks_once h,
)

-- `Load` installs a hook only behind the load of the preferences; it succeeds exactly if the engine
-- has the interfaces and each of the six lookups succeeds; and then each of the fourteen hooks is
-- installed once, and none otherwise.
pub load-IsGuarded :
    (has_interfaces : Bool) (found : Lookup → Bool) (late dedicated : Bool)
    → let r = load has_interfaces found late dedicated in
      IsGuarded false r.1
      × ((r.0 ≡ true) ↔ ((has_interfaces ≡ true) × ((l : Lookup) → found l ≡ true)))
      × ((h : Hook) → count h (installed_after [] r.1) ≡ (if r.0 then 1 else 0))
load-IsGuarded has_interfaces found late dedicated =
    let all = all_found found lookups in
    let (guarded, complete, hooks) =
      subst (IsLoaded (has_interfaces && all)) (sym (load_lem has_interfaces found late dedicated))
        (outcome-IsLoaded has_interfaces all late dedicated) in
    (
      guarded,
      (
        λ e. (ground (arith, complete, e), found_each found (ground (arith, complete, e))),
        λ h. complete ∙ ground (arith, h.0, each_found found h.1),
      ),
      λ h. hooks h ∙ ap (λ b. if b then 1 else 0) (sym complete),
    )

outcome_unloaded :
    (late dedicated : Bool)
    → installed_after [] ((outcome true true late dedicated).1 ++ unload) ≡ function_hooks
unfolding start each installed_after unload without_hook
outcome_unloaded true true = refl
outcome_unloaded true false = refl
outcome_unloaded false true = refl
outcome_unloaded false false = refl

-- Behind a load that succeeded, `Unload` leaves the hooks on functions, and removes the others.
pub unload_leaves :
    (found : Lookup → Bool) (late dedicated : Bool)
    → all_found found lookups ≡ true
    → installed_after [] ((load true found late dedicated).1 ++ unload) ≡ function_hooks
unload_leaves found late dedicated h =
    ap (λ (r : Bool × List Effect). installed_after [] (r.1 ++ unload))
      (load_lem true found late dedicated ∙ ap (λ b. outcome true b late dedicated) h)
    ∙ outcome_unloaded late dedicated
