-- ===== src/Connection/Staging.antt =====
-- What `Hook_ReplyConnection` sends.
use multi_addon_rss.Addons.{contains, is_nil, is_rss_asset_addon, vector_to_string}
use multi_addon_rss.Base.{
  Bool, Bytes, List, [], equal, false, not, true, ℕ, ◌&&◌, ◌||◌, ◌∷◌, ◌≡◌, ◌⊎◌,
}
use multi_addon_rss.Clients.{
  ClientAddonInfo, Floats, Manager, client_info, get_client_addons, is_client_rss_assets_enabled,
  put_client,
}
use multi_addon_rss.Connection.{Reply, Settings, is_connecting, is_timed_out, touch_client}
use multi_addon_rss.Prefs.IdSet.{member}

module _ {T : Type 0} (fl : Floats T) (set : Settings T) (clock : ℕ → T) where
  -- The client's entry behind the first lines of the hook, and the manager with it.
  abbrev pub arrived : Manager T → ℕ → ClientAddonInfo T
  arrived m id = touch_client fl set clock (client_info fl m id)

  abbrev pub arrived_manager : Manager T → ℕ → Manager T
  arrived_manager m id = put_client id (arrived m id) m

  -- What is sent to a client is a list `l`, where an addon stands if it is required and downloaded or
  -- pending, or, for a client that opted out, if it is an RSS asset of the full list.
  abbrev pub sent_formula : Manager T → ℕ → Bytes → Bytes → Bool
  sent_formula m id pending a =
      (contains a (get_client_addons fl m id false)
        && (contains a (client_info fl m id).downloaded_addons || equal a pending))
      || (not (is_client_rss_assets_enabled m id)
          && (contains a (get_client_addons fl m id true) && is_rss_asset_addon a))

  abbrev pub IsSentTo : Manager T → ℕ → Bytes → List Bytes → Type 0
  IsSentTo m id pending l = (a : Bytes) → contains a l ≡ sent_formula m id pending a

  -- The client has nothing to download and nothing to mount.
  abbrev pub is_idle : Manager T → ℕ → Bool
  is_idle m id =
      is_nil (get_client_addons fl m id false)
      && (is_client_rss_assets_enabled m id || is_nil (get_client_addons fl m id true))

  -- The client has something to download, and has been connecting for too long.
  abbrev pub is_late : Manager T → ℕ → Bool
  is_late m id =
      not (is_nil (get_client_addons fl m id false))
      && (is_connecting (client_info fl m id).connected_state
          && is_timed_out fl set clock (client_info fl m id))

  -- What a reply does. An idle client gets the string that the server has; a late one gets nothing and
  -- is marked for a disconnect; any other gets one string that joins such a list, for the addon that
  -- is then pending.
  abbrev pub SendsTo : Manager T → ℕ → Bytes → Reply T → Type 0
  SendsTo m id server_addons r =
      ((is_idle m id ≡ true) × (r.sent ≡ server_addons ∷ []))
      ⊎ (((is_late m id ≡ true) × (r.sent ≡ []) × (member id r.manager.timed_out_clients ≡ true))
          ⊎ ((is_idle m id ≡ false)
              × (is_late m id ≡ false)
              × ((l : List Bytes) × (r.sent ≡ vector_to_string l ∷ [])
                  × IsSentTo m id (client_info fl r.manager id).current_pending_addon l)))

  abbrev Joins : Manager T → ℕ → Reply T → Type 0
  Joins m id r =
      (l : List Bytes) × (r.sent ≡ vector_to_string l ∷ [])
      × IsSentTo m id (client_info fl r.manager id).current_pending_addon l
