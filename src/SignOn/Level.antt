-- ===== src/SignOn/Level.antt =====
-- A level change carries one addon at most.
use multi_addon_rss.Addons.{contains, string_to_vector}
use multi_addon_rss.Base.{
  Bool, Bytes, List, [], ap, arith, equal_iff, equal_refl, false, inl, inr, map, not, refl, subst,
  sym, true, ℕ, ◌&&◌, ◌∷◌, ◌≡◌, ◌⊎◌,
}
use multi_addon_rss.Clients.{
  ClientAddonInfo, Floats, Manager, client_info, is_client_rss_assets_enabled, is_skipped,
}
use multi_addon_rss.Clients.Needed.{client_info_put}
use multi_addon_rss.SignOn.{
  changelevel, filter_message_addons, head_or_empty, hook_send_net_message, send_changelevel,
  send_message, send_signon, signon,
}
use multi_addon_rss.SignOn.Staged.{touched_manager}

contains-filter_message_addons :
    (enabled : Bool) (map : Bytes) (xs : List Bytes) (a : Bytes)
    → contains a (filter_message_addons enabled map xs)
      ≡ (contains a xs && not (is_skipped (not enabled) map a))
unfolding filter_message_addons contains is_skipped
contains-filter_message_addons enabled map [] a = refl
contains-filter_message_addons enabled map (x ∷ xs) a =
    ground (arith, contains-filter_message_addons enabled map xs a, equal_iff x a)

-- The head of a list, if it has one.
head_cases : (xs : List Bytes) → (xs ≡ []) ⊎ (contains (head_or_empty xs) xs ≡ true)
unfolding contains
head_cases [] = inl refl
head_cases (a ∷ xs) = inr (ground (arith, equal_refl a))

filtered_head :
    (enabled : Bool) (map s : Bytes)
    → let a = head_or_empty (filter_message_addons enabled map (string_to_vector s)) in
      (a ≡ [])
      ⊎ ((contains a (string_to_vector s) ≡ true) × (is_skipped (not enabled) map a ≡ false))
filtered_head enabled map s =
    let xs = filter_message_addons enabled map (string_to_vector s) in
    elim (head_cases xs) [
      | inl e ↦ inl (ap head_or_empty e)
      | inr h ↦ inr (
          ground (
            arith,
            contains-filter_message_addons enabled map (string_to_vector s) (head_or_empty xs),
          ))
    ]

-- An addon of the list `s` that a client may be sent, or none.
abbrev pub IsSendable : Bool → Bytes → Bytes → Bytes → Type 0
IsSendable enabled map s a =
    (a ≡ []) ⊎ ((contains a (string_to_vector s) ≡ true) × (is_skipped (not enabled) map a ≡ false))

IsSendable-head :
    (enabled : Bool) (map s a : Bytes)
    → a ≡ head_or_empty (filter_message_addons enabled map (string_to_vector s))
    → IsSendable enabled map s a
IsSendable-head enabled map s a e =
    subst (IsSendable enabled map s) (sym e) (filtered_head enabled map s)

module _ {T : Type 0} (fl : Floats T) where
  -- On a dedicated server, a signon message that changes the level goes out with one addon of its
  -- list that the preference of the client admits, or with none, and that addon becomes the pending
  -- one.
  pub send_changelevel_single :
      (now : T) (m : Manager T) (id : ℕ) (s : Bytes)
      → let r = hook_send_net_message fl true now m id (signon changelevel s) in
        let a = (client_info fl r.manager id).current_pending_addon in
        (r.message ≡ signon changelevel a)
        × IsSendable (is_client_rss_assets_enabled m id) m.current_workshop_map s a
  unfolding hook_send_net_message send_message send_signon send_changelevel
      is_client_rss_assets_enabled
  send_changelevel_single now m id s =
      let m' = touched_manager fl now m id in
      let first = head_or_empty (
        filter_message_addons (is_client_rss_assets_enabled m id) m.current_workshop_map
          (string_to_vector s)) in
      let e =
        ap (λ (i : ClientAddonInfo T). i.current_pending_addon)
          (client_info_put fl m' id
            (record (client_info fl m' id) { current_pending_addon = first })) in
      (
        ap (signon changelevel) (sym e),
        IsSendable-head (is_client_rss_assets_enabled m id) m.current_workshop_map s _ e,
      )
