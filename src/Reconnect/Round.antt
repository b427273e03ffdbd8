-- ===== src/Reconnect/Round.antt =====
-- One round of a staged download: an order, and the reconnect that settles it.
use multi_addon_rss.Addons.{find_and_remove, is_empty, is_nil, remove_each}
use multi_addon_rss.Base.{
  Bool, Bytes, List, [], ap, arith, equal_refl, false, refl, sym, true, ℕ, ◌++◌, ◌∙◌, ◌∷◌, ◌≡◌,
}
use multi_addon_rss.Clients.{
  ClientAddonInfo, Floats, Manager, client_info, get_client_addons, is_client_rss_assets_enabled,
  joined, put_client,
}
use multi_addon_rss.Clients.Needed.{client_info_put, get_client_addons_put, required_of_full}
use multi_addon_rss.Connection.{Settings}
use multi_addon_rss.Reconnect.{check_client_addons, check_pending, settle_pending}
use multi_addon_rss.SignOn.{Sending, hook_send_net_message, missing_addons, other_state, signon}
use multi_addon_rss.SignOn.Staged.{missing_addons_put, send_missing, touched, touched_manager}

remove_each-snoc :
    (a : Bytes) (ds xs : List Bytes)
    → remove_each (ds ++ a ∷ []) xs ≡ find_and_remove a (remove_each ds xs)
unfolding remove_each
remove_each-snoc a [] xs = refl
remove_each-snoc a (d ∷ ds) xs = remove_each-snoc a ds (find_and_remove d xs)

find_and_remove_head : (a : Bytes) (xs : List Bytes) → find_and_remove a (a ∷ xs) ≡ xs
unfolding find_and_remove
find_and_remove_head a xs = rw (equal_refl a)

remove_each-nil : (ds : List Bytes) → remove_each ds [] ≡ []
unfolding remove_each find_and_remove
remove_each-nil [] = refl
remove_each-nil (d ∷ ds) = remove_each-nil ds

required_is_nil :
    (ds xs : List Bytes) (a : Bytes) (rest : List Bytes)
    → remove_each ds xs ≡ a ∷ rest
    → is_nil xs ≡ false
unfolding is_nil
required_is_nil ds [] a rest e = ground (arith, remove_each-nil ds)
required_is_nil ds (x ∷ xs) a rest e = refl

-- What a reconnect in time makes of a client with the pending addon `a`.
abbrev settled : {T : Type 0} → T → Bytes → ClientAddonInfo T → ClientAddonInfo T
settled t a info = record info {
  downloaded_addons = info.downloaded_addons ++ a ∷ [];
  current_pending_addon = [];
  last_active_time = t;
  connected_state = joined;
}

module _ {T : Type 0} (fl : Floats T) (set : Settings T) where
  -- The client reconnects within the interval behind its last activity.
  abbrev pub IsInTime : T → (ℕ → T) → Type 0
  IsInTime now clock = fl.gt (fl.sub (clock 0) now) set.extra_addons_timeout ≡ false

  check_settled :
      (clock : ℕ → T) (m : Manager T) (id : ℕ)
      → set.is_dedicated_server ≡ true
      → is_client_rss_assets_enabled m id ≡ true
      → is_nil (get_client_addons fl m id true) ≡ false
      → is_empty (client_info fl m id).current_pending_addon ≡ false
      → IsInTime (client_info fl m id).last_active_time clock
      → let info = client_info fl m id in
        check_client_addons fl set clock m id
        ≡ put_client id
            (settled (clock 1) info.current_pending_addon info)
            (put_client id (record info { connected_state = joined }) m)
  unfolding check_client_addons check_pending settle_pending is_client_rss_assets_enabled
  check_settled clock m id dedicated enabled some_addon pending in_time =
      let info = record (client_info fl m id) { connected_state = joined } in
      let listed = ap is_nil (get_client_addons_put fl m id info true refl) ∙ some_addon in
      rw (listed, dedicated, pending, enabled, in_time)

  -- One round: a signon message goes out at `now`, the client downloads what it is told to, and
  -- connects again, when the clock reads `clock`.
  pub download_round : ℕ → Bytes → T → (ℕ → T) → Manager T → ℕ → Manager T
  download_round state addons now clock m id =
      check_client_addons fl set clock
        (hook_send_net_message fl true now m id (signon (other_state state) addons)).manager id

  -- The state in which the client of a round comes back.
  abbrev ordered : T → Bytes → Manager T → ℕ → Manager T
  ordered now a m id =
      put_client id (record (touched fl now m id) { current_pending_addon = a })
        (touched_manager fl now m id)

  enabled_full :
      (m : Manager T) (id : ℕ)
      → is_client_rss_assets_enabled m id ≡ true
      → get_client_addons fl m id false ≡ get_client_addons fl m id true
  enabled_full m id h = required_of_full fl m id ∙ rw h

  module _ (m : Manager T) (id : ℕ) (a : Bytes) (rest : List Bytes)
      (enabled : is_client_rss_assets_enabled m id ≡ true)
      (missing : missing_addons fl m id ≡ a ∷ rest) where
    missing_is :
        remove_each (client_info fl m id).downloaded_addons (get_client_addons fl m id false)
        ≡ a ∷ rest
    unfolding missing_addons
    missing_is = missing

    full_is_nil : is_nil (get_client_addons fl m id true) ≡ false
    full_is_nil =
        ap is_nil (sym (enabled_full m id enabled))
        ∙ required_is_nil (client_info fl m id).downloaded_addons (get_client_addons fl m id false)
            a rest missing_is

    ordered-info :
        (now : T)
        → client_info fl (ordered now a m id) id
          ≡ record (touched fl now m id) { current_pending_addon = a }
    ordered-info now = client_info_put fl (touched_manager fl now m id) id _

    ordered-list :
        (now : T) (include : Bool)
        → get_client_addons fl (ordered now a m id) id include ≡ get_client_addons fl m id include
    ordered-list now include =
        get_client_addons_put fl (touched_manager fl now m id) id _ include (
          ap (λ (i : ClientAddonInfo T). i.addons_to_load)
            (sym (client_info_put fl m id (touched fl now m id))))
        ∙ get_client_addons_put fl m id (touched fl now m id) include refl

    -- The check behind the reconnect finds the addon pending, and in time.
    ordered-settled :
        (now : T) (clock : ℕ → T)
        → set.is_dedicated_server ≡ true
        → is_empty a ≡ false
        → IsInTime now clock
        → let info = client_info fl (ordered now a m id) id in
          check_client_addons fl set clock (ordered now a m id) id
          ≡ put_client id
              (settled (clock 1) info.current_pending_addon info)
              (put_client id (record info { connected_state = joined }) (ordered now a m id))
    unfolding is_client_rss_assets_enabled
    ordered-settled now clock dedicated nonempty in_time =
        let e = ordered-info now in
        check_settled clock (ordered now a m id) id dedicated enabled
          (ap is_nil (ordered-list now true) ∙ full_is_nil)
          (ap (λ (i : ClientAddonInfo T). is_empty i.current_pending_addon) e ∙ nonempty)
          (ap
              (λ (i : ClientAddonInfo T).
                fl.gt (fl.sub (clock 0) i.last_active_time) set.extra_addons_timeout)
              e
            ∙ in_time)

    settled_missing :
        (now : T) (clock : ℕ → T)
        → let m' = ordered now a m id in
          let info = client_info fl m' id in
          missing_addons fl
            (put_client id
              (settled (clock 1) info.current_pending_addon info)
              (put_client id (record info { connected_state = joined }) m'))
            id
          ≡ rest
    settled_missing now clock =
        let m' = ordered now a m id in
        let info = client_info fl m' id in
        let back = put_client id (record info { connected_state = joined }) m' in
        let kept = client_info_put fl m' id (record info { connected_state = joined }) in
        let list =
          get_client_addons_put fl m' id (record info { connected_state = joined }) false refl
          ∙ ordered-list now false in
        let d = (client_info fl m id).downloaded_addons in
        missing_addons_put fl back id (settled (clock 1) info.current_pending_addon info)
          (ap (λ (i : ClientAddonInfo T). i.addons_to_load) (sym kept))
        ∙ ap (remove_each (info.downloaded_addons ++ info.current_pending_addon ∷ [])) list
        ∙ ap
            (λ (i : ClientAddonInfo T).
              remove_each (i.downloaded_addons ++ i.current_pending_addon ∷ [])
                (get_client_addons fl m id false))
            (ordered-info now)
        ∙ remove_each-snoc a d (get_client_addons fl m id false)
        ∙ ap (find_and_remove a) missing_is
        ∙ find_and_remove_head a rest

    -- On a dedicated server, for a client that has the RSS assets enabled and reconnects in time,
    -- one round takes the first missing addon, if it is not the empty string, off what is missing.
    pub round_missing :
        (state : ℕ) (addons : Bytes) (now : T) (clock : ℕ → T)
        → set.is_dedicated_server ≡ true
        → is_empty a ≡ false
        → IsInTime now clock
        → missing_addons fl (download_round state addons now clock m id) id ≡ rest
    unfolding download_round
    round_missing state addons now clock dedicated nonempty in_time =
        ap (λ (s : Sending T). missing_addons fl (check_client_addons fl set clock s.manager id) id)
          (send_missing fl now m id state addons a rest missing)
        ∙ ap (λ x. missing_addons fl x id) (ordered-settled now clock dedicated nonempty in_time)
        ∙ settled_missing now clock

    pub round_enabled :
        (state : ℕ) (addons : Bytes) (now : T) (clock : ℕ → T)
        → set.is_dedicated_server ≡ true
        → is_empty a ≡ false
        → IsInTime now clock
        → is_client_rss_assets_enabled (download_round state addons now clock m id) id ≡ true
    unfolding download_round is_client_rss_assets_enabled
    round_enabled state addons now clock dedicated nonempty in_time =
        ap
          (λ (s : Sending T).
            is_client_rss_assets_enabled (check_client_addons fl set clock s.manager id) id)
          (send_missing fl now m id state addons a rest missing)
        ∙ ap (λ (x : Manager T). is_client_rss_assets_enabled x id)
            (ordered-settled now clock dedicated nonempty in_time)
        ∙ enabled
