-- ===== src/Store/Setter.antt =====
-- What the setter leaves in the manager.
use multi_addon_rss.Addons.{contains, is_empty, is_rss_asset_addon}
use multi_addon_rss.Base.{
  Bool, Bool-cases, Bytes, List, Option, [], ap, arith, equal_iff, false, if◌then◌else◌, inl, inr,
  none, not, refl, some, subst, sym, true, ℕ, ◌&&◌, ◌<◌, ◌==◌, ◌∙◌, ◌∷◌, ◌≡◌,
}
use multi_addon_rss.Clients.{
  ClientAddonInfo, ClientMap, Floats, Manager, client_info, client_or_new,
  is_client_rss_assets_enabled,
}
use multi_addon_rss.Prefs.Change.{Change, apply_rss_preference_change, set_member}
use multi_addon_rss.Prefs.Change.Outcomes.{change_failed, change_persisted}
use multi_addon_rss.Prefs.IdSet.{Ascends, member}
use multi_addon_rss.Store.{
  FileSystem, cache_persisted, change_of, clear_rss_cache, drop_entry_cache, drop_rss_cache,
  persist_members, save_opt_out_clients, set_client_rss_assets_enabled, without_rss_assets,
}

contains-without_rss_assets :
    (a : Bytes) (xs : List Bytes)
    → contains a (without_rss_assets xs) ≡ (contains a xs && not (is_rss_asset_addon a))
unfolding without_rss_assets contains
contains-without_rss_assets a [] = refl
contains-without_rss_assets a (x ∷ xs) =
    ground (arith, contains-without_rss_assets a xs, equal_iff x a)

is_rss-nil : is_rss_asset_addon [] ≡ false
unfolding is_rss_asset_addon is_empty
is_rss-nil = refl

pending-drop :
    {T : Type 0} (info : ClientAddonInfo T)
    → is_rss_asset_addon (drop_rss_cache info).current_pending_addon ≡ false
unfolding drop_rss_cache
pending-drop info = elim (Bool-cases (is_rss_asset_addon info.current_pending_addon)) [
  | inl e ↦ rw e is_rss-nil
  | inr e ↦ rw e e
]

-- What no longer has RSS assets, against what it was.
abbrev pub IsCleared : {T : Type 0} → ClientAddonInfo T → ClientAddonInfo T → Type 0
IsCleared info info' =
    ((a : Bytes)
      → contains a info'.downloaded_addons
        ≡ (contains a info.downloaded_addons && not (is_rss_asset_addon a)))
    × (is_rss_asset_addon info'.current_pending_addon ≡ false)

module _ {T : Type 0} (fl : Floats T) where
  drop_entry-IsCleared :
      (o : Option (ClientAddonInfo T))
      → IsCleared (client_or_new fl o) (client_or_new fl (drop_entry_cache o))
  unfolding drop_rss_cache
  drop_entry-IsCleared none = (λ a. unfold contains in refl, is_rss-nil)
  drop_entry-IsCleared (some info) =
      (λ a. contains-without_rss_assets a info.downloaded_addons, pending-drop info)

  clear-IsCleared :
      (clients : ClientMap T) (id : ℕ)
      → IsCleared
          (client_or_new fl (clients id))
          (client_or_new fl (clear_rss_cache id true clients id))
  unfolding clear_rss_cache
  clear-IsCleared clients id =
      let e : (id == id) ≡ true = ground arith in rw e (drop_entry-IsCleared (clients id))

module _ {T W H : Type 0} (fs : FileSystem W H) where
  -- A setter that fails leaves the preferences, an ascending list of nonzero ids, and the entries of
  -- the clients as they were.
  pub set_client_failed :
      (m : Manager T) (id : ℕ) (enabled : Bool) (w : W)
      → Ascends 0 m.rss_asset_opt_out_clients
      → (set_client_rss_assets_enabled fs m id enabled w).result ≡ false
      → let r = set_client_rss_assets_enabled fs m id enabled w in
        (r.manager.rss_asset_opt_out_clients ≡ m.rss_asset_opt_out_clients)
        × (r.manager.client_addons ≡ m.client_addons)
  unfolding set_client_rss_assets_enabled
  set_client_failed m id enabled w a h = elim (Bool-cases (id == 0)) [
    | inl e ↦ rw e (refl, refl)
    | inr e ↦ rw e (
        let c = change_of fs m id enabled w in
        let same : (set_client_rss_assets_enabled fs m id enabled w).result ≡ c.result =
          rw e refl in
        let q =
          change_failed (persist_members fs) (cache_persisted fs id enabled)
            m.rss_asset_preferences_writable m.rss_asset_opt_out_clients id enabled
            (w, m.client_addons) a (sym same ∙ h) in
        (
          q.0,
          elim (q.1) [
            | inl kept ↦ ap (λ (s : W × ClientMap T). s.1) kept
            | inr behind ↦ ap (λ (s : W × ClientMap T). s.1) behind
          ],
        ))
  ]

  -- Where the store is writable, the preferences are an ascending list of nonzero ids and the change
  -- can be saved, a client that opted out is opted in again; then no RSS asset is left among its
  -- downloaded addons or as its pending one, and all else that it downloaded is.
  pub set_client_enabled :
      (fl : Floats T) (m : Manager T) (id : ℕ) (w : W)
      → Ascends 0 m.rss_asset_opt_out_clients
      → 0 < id
      → m.rss_asset_preferences_writable ≡ true
      → member id m.rss_asset_opt_out_clients ≡ true
      → (save_opt_out_clients fs (set_member id true m.rss_asset_opt_out_clients) w).0 ≡ true
      → let r = set_client_rss_assets_enabled fs m id true w in
        (r.result ≡ true)
        × (is_client_rss_assets_enabled r.manager id ≡ true)
        × IsCleared (client_info fl m id) (client_info fl r.manager id)
  unfolding set_client_rss_assets_enabled is_client_rss_assets_enabled
  set_client_enabled fl m id w a p latch out saved =
      let members = m.rss_asset_opt_out_clients in
      let world : W × ClientMap T = (w, m.client_addons) in
      let change : Bool → Change (W × ClientMap T) = λ b.
        apply_rss_preference_change (persist_members fs) (cache_persisted fs id true) b members id
          true world in
      let behind =
        cache_persisted fs id true (persist_members fs (set_member id true members) world).1 in
      let Persisted : Bool → Type 0 = λ b.
        ((change b).result ≡ true)
        × ((change b).latch ≡ true)
        × ((change b).world ≡ behind)
        × ((x : ℕ) → member x (change b).members ≡ (if id == x then false else member x members)) in
      let q = subst Persisted (sym latch) (
        change_persisted (persist_members fs) (cache_persisted fs id true) members id true world a p
          out saved) in
      let e : (id == 0) ≡ false = ground arith in
      rw e (
        q.0,
        ground (arith, q.3 id),
        subst (λ (s : W × ClientMap T). IsCleared (client_info fl m id) (client_or_new fl (s.1 id)))
            (sym q.2) (clear-IsCleared fl m.client_addons id),
      )
