-- ===== src/ClientLists.antt =====
-- The lists of addons that only clients load, in src/multiaddonmanager.cpp: `AddClientAddon`,
-- `RemoveClientAddon` and `ClearClientAddons`.
pub mod Notices
mod Tests
use multi_addon_rss.Addons.{contains, find_and_remove, is_empty, is_nil}
use multi_addon_rss.Base.{Bool, Bytes, List, [], if◌then◌else◌, not, ℕ, ◌&&◌, ◌++◌, ◌==◌, ◌||◌, ◌∷◌}
use multi_addon_rss.Clients.{Floats, Manager, client_info, put_client}
use multi_addon_rss.SignOn.{SignonState, head_or_empty, is_changelevel, missing_addons}

-- A connected client, as far as `AddClientAddon` looks at it.
pub record ConnectedClient : Type 0 where
  pub steam_id : ℕ
  pub signon_state : SignonState

-- The state behind a change of a list, and the Steam ids of the clients that are sent a message,
-- which orders the addon of the call.
pub record ListChange (T : Type 0) : Type 0 where
  pub manager : Manager T
  pub told : List ℕ

module _ {T : Type 0} (fl : Floats T) where
  abbrev pub set_addons_to_load : ℕ → List Bytes → Manager T → Manager T
  set_addons_to_load id addons m =
      put_client id (record (client_info fl m id) { addons_to_load = addons }) m

  -- The list that a Steam id stands for; 0 stands for all clients.
  abbrev pub client_list : Manager T → ℕ → List Bytes
  client_list m id =
      if id == 0 then m.global_client_addons else (client_info fl m id).addons_to_load

  abbrev pub set_client_list : ℕ → List Bytes → Manager T → Manager T
  set_client_list id addons m =
      if id == 0 then record m { global_client_addons = addons } else set_addons_to_load id addons m

  -- The client has its entry's first missing addon pending, and is sent the message.
  abbrev pub tell_client : Manager T → ℕ → Bytes → Manager T
  tell_client m id a = put_client id (record (client_info fl m id) { current_pending_addon = a }) m

  -- The loop over the clients. Its four `break`s end it: a client that is loading, an entry that has an
  -- addon pending, nothing to load, and the one client of an id.
  unfoldable pub tell_clients : ℕ → Manager T → List ConnectedClient → ListChange T
  tell_clients id m [] = record { manager = m; told = [] }
  tell_clients id m (c ∷ clients) =
      let missing = missing_addons fl m id in
      let m' = tell_client m id (head_or_empty missing) in
      let next = tell_clients id m' clients in
      let others = tell_clients id m clients in
      if id == 0 || c.steam_id == id
      then if is_changelevel c.signon_state
          || (not (is_empty (client_info fl m id).current_pending_addon) || is_nil missing)
        then record { manager = m; told = [] }
        else if not (id == 0)
        then record { manager = m'; told = c.steam_id ∷ [] }
        else record { manager = next.manager; told = c.steam_id ∷ next.told }
      else others

  -- `AddClientAddon`. `has_message` says whether `GetAddonSignonStateMessage` made a message.
  unfoldable pub add_client_addon :
      Bool → List ConnectedClient → Manager T → Bytes → ℕ → Bool → ListChange T
  add_client_addon has_message clients m addon id refresh =
      let m' = set_client_list id (client_list m id ++ addon ∷ []) m in
      if contains addon (client_list m id)
      then record { manager = m; told = [] }
      else if refresh && has_message
      then tell_clients id m' clients
      else record { manager = m'; told = [] }

  -- `RemoveClientAddon`
  unfoldable pub remove_client_addon : Manager T → Bytes → ℕ → Manager T
  remove_client_addon m addon id = set_client_list id (find_and_remove addon (client_list m id)) m

  -- `ClearClientAddons`
  unfoldable pub clear_client_addons : Manager T → ℕ → Manager T
  clear_client_addons m id = set_client_list id [] m
