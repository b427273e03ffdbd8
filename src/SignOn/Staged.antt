-- ===== src/SignOn/Staged.antt =====
-- What `Hook_SendNetMessage` tells a client to download next.
use multi_addon_rss.Addons.{contains, remove_each}
use multi_addon_rss.Addons.Lists.{contains-remove_each}
use multi_addon_rss.Base.{
  Bytes, List, [], ap, arith, equal_refl, false, not, refl, sym, true, ℕ, ◌&&◌, ◌∙◌, ◌∷◌, ◌≡◌,
}
use multi_addon_rss.Clients.{
  ClientAddonInfo, Floats, Manager, client_info, get_client_addons, is_client_rss_assets_enabled,
  put_client,
}
use multi_addon_rss.Clients.Needed.{
  client_info_put, get_client_addons-Distinct, get_client_addons_put,
}
use multi_addon_rss.SignOn.{
  Sending, changelevel, complete_pending, hook_send_net_message, missing_addons, other_state,
  send_message, send_next, send_signon, signon,
}

module _ {T : Type 0} (fl : Floats T) where
  -- What is missing depends on the lists and on what is downloaded.
  pub missing_addons_put :
      (m : Manager T) (id : ℕ) (info : ClientAddonInfo T)
      → info.addons_to_load ≡ (client_info fl m id).addons_to_load
      → missing_addons fl (put_client id info m) id
        ≡ remove_each info.downloaded_addons (get_client_addons fl m id false)
  unfolding missing_addons
  missing_addons_put m id info e =
      rw (get_client_addons_put fl m id info false e, client_info_put fl m id info)

  abbrev pub touched : T → Manager T → ℕ → ClientAddonInfo T
  touched now m id = record (client_info fl m id) { last_active_time = now }

  abbrev pub touched_manager : T → Manager T → ℕ → Manager T
  touched_manager now m id = put_client id (touched now m id) m

  missing_addons_touched :
      (now : T) (m : Manager T) (id : ℕ)
      → missing_addons fl (touched_manager now m id) id ≡ missing_addons fl m id
  missing_addons_touched now m id =
      missing_addons_put m id (touched now m id) refl ∙ unfold missing_addons in refl

  -- On a dedicated server, with an addon missing, a signon message that changes no level becomes an
  -- order to fetch the first missing addon, which becomes the pending one.
  pub send_missing :
      (now : T) (m : Manager T) (id k : ℕ) (s a : Bytes) (rest : List Bytes)
      → missing_addons fl m id ≡ a ∷ rest
      → hook_send_net_message fl true now m id (signon (other_state k) s) ≡ record {
        manager =
            put_client id
              (record (touched now m id) { current_pending_addon = a })
              (put_client id (touched now m id) m);
        message = signon changelevel a;
      }
  unfolding hook_send_net_message send_message send_signon send_next
  send_missing now m id k s a rest e =
      let m' = touched_manager now m id in
      ap (send_next m' id (client_info fl m' id) (other_state k) s)
        (missing_addons_touched now m id ∙ e)
      ∙ ap (λ (i : ClientAddonInfo T). sending m' i) (client_info_put fl m id (touched now m id))
    where
      sending : Manager T → ClientAddonInfo T → Sending T
      sending m' i = record {
        manager = put_client id (record i { current_pending_addon = a }) m';
        message = signon changelevel a;
      }

  -- On a dedicated server, with nothing missing, a signon message that changes no level goes out
  -- unchanged, and the pending addon is settled.
  pub send_complete :
      (now : T) (m : Manager T) (id k : ℕ) (s : Bytes)
      → missing_addons fl m id ≡ []
      → hook_send_net_message fl true now m id (signon (other_state k) s) ≡ record {
        manager =
            put_client id
              (complete_pending (is_client_rss_assets_enabled m id) (touched now m id))
              (put_client id (touched now m id) m);
        message = signon (other_state k) s;
      }
  unfolding hook_send_net_message send_message send_signon send_next is_client_rss_assets_enabled
  send_complete now m id k s e =
      let m' = touched_manager now m id in
      ap (send_next m' id (client_info fl m' id) (other_state k) s)
        (missing_addons_touched now m id ∙ e)
      ∙ ap (λ (i : ClientAddonInfo T). sending m' i) (client_info_put fl m id (touched now m id))
    where
      sending : Manager T → ClientAddonInfo T → Sending T
      sending m' i = record {
        manager = put_client id (complete_pending (is_client_rss_assets_enabled m id) i) m';
        message = signon (other_state k) s;
      }

  contains_head : (a : Bytes) (xs : List Bytes) → contains a (a ∷ xs) ≡ true
  unfolding contains
  contains_head a xs = ground (arith, equal_refl a)

  -- The first missing addon is required, and not among the downloaded ones.
  pub missing_addons_needed :
      (m : Manager T) (id : ℕ) (a : Bytes) (rest : List Bytes)
      → missing_addons fl m id ≡ a ∷ rest
      → (contains a (get_client_addons fl m id false) ≡ true)
        × (contains a (client_info fl m id).downloaded_addons ≡ false)
  unfolding missing_addons
  missing_addons_needed m id a rest e =
      let d = (client_info fl m id).downloaded_addons in
      let xs = get_client_addons fl m id false in
      let both : (contains a xs && not (contains a d)) ≡ true =
        sym (contains-remove_each a d xs (get_client_addons-Distinct fl m id false))
        ∙ ap (contains a) e
        ∙ contains_head a rest in
      ground arith
