-- ===== src/SignOn/Orders.antt =====
-- `Hook_SendNetMessage` on a signon message, by the first required addon that is not downloaded.
use multi_addon_rss.Addons.{contains, find_and_remove, is_empty, remove_each}
use multi_addon_rss.Addons.Lists.{Distinct, contains-append, find_and_remove-Distinct}
use multi_addon_rss.Base.{
  Bool, Bytes, List, Option, [], ap, arith, equal, equal_iff, false, if◌then◌else◌, none, not, refl,
  some, subst, sym, true, ℕ, ◌&&◌, ◌||◌, ◌∙◌, ◌∷◌, ◌≡◌,
}
use multi_addon_rss.Clients.{
  ClientAddonInfo, Floats, Manager, client_info, get_client_addons, is_client_rss_assets_enabled,
}
use multi_addon_rss.Clients.Needed.{client_info_put, get_client_addons-Distinct}
use multi_addon_rss.SignOn.{
  Sending, changelevel, complete_pending, hook_send_net_message, missing_addons, other_state,
  signon,
}
use multi_addon_rss.SignOn.Staged.{send_complete, send_missing, touched, touched_manager}

filtered : List Bytes → List Bytes → List Bytes
filtered ds [] = []
filtered ds (x ∷ xs) = let rest = filtered ds xs in if contains x ds then rest else x ∷ rest

filtered_absent :
    (d : Bytes) (ds xs : List Bytes) → contains d xs ≡ false → filtered (d ∷ ds) xs ≡ filtered ds xs
unfolding filtered contains
filtered_absent d ds [] h = refl
filtered_absent d ds (x ∷ xs) h =
    ground (arith, filtered_absent d ds xs, equal_iff d x, equal_iff x d)

filtered-find_and_remove :
    (d : Bytes) (ds xs : List Bytes)
    → Distinct xs
    → filtered ds (find_and_remove d xs) ≡ filtered (d ∷ ds) xs
unfolding filtered contains find_and_remove
filtered-find_and_remove d ds [] h = refl
filtered-find_and_remove d ds (x ∷ xs) h = ground (
  arith,
  filtered-find_and_remove d ds xs h.1,
  filtered_absent d ds xs,
  equal_iff d x,
  equal_iff x d,
)

filtered_nil : (xs : List Bytes) → filtered [] xs ≡ xs
unfolding filtered contains
filtered_nil [] = refl
filtered_nil (x ∷ xs) = ap (λ ys. x ∷ ys) (filtered_nil xs)

remove_each-filtered : (ds xs : List Bytes) → Distinct xs → remove_each ds xs ≡ filtered ds xs
unfolding remove_each
remove_each-filtered [] xs h = sym (filtered_nil xs)
remove_each-filtered (d ∷ ds) xs h =
    remove_each-filtered ds (find_and_remove d xs) (find_and_remove-Distinct d xs h)
    ∙ filtered-find_and_remove d ds xs h

-- The first of a list that is not among the downloaded ones.
abbrev pub first_missing : List Bytes → List Bytes → Option Bytes
first_missing downloaded [] = none
first_missing downloaded (a ∷ required) =
    if contains a downloaded then first_missing downloaded required else some a

head_option : List Bytes → Option Bytes
head_option [] = none
head_option (a ∷ xs) = some a

head-filtered : (ds xs : List Bytes) → head_option (filtered ds xs) ≡ first_missing ds xs
unfolding filtered head_option
head-filtered ds [] = refl
head-filtered ds (x ∷ xs) = ground (arith, head-filtered ds xs)

module _ {T : Type 0} (fl : Floats T) where
  first_missing_lem :
      (m : Manager T) (id : ℕ)
      → head_option (missing_addons fl m id)
        ≡ first_missing (client_info fl m id).downloaded_addons (get_client_addons fl m id false)
  unfolding missing_addons
  first_missing_lem m id =
      let ds = (client_info fl m id).downloaded_addons in
      let xs = get_client_addons fl m id false in
      ap head_option (remove_each-filtered ds xs (get_client_addons-Distinct fl m id false))
      ∙ head-filtered ds xs

  -- What the hook makes of a message of the state `k` with the addons `s`. With an addon missing it
  -- orders that one, and it is pending; with none missing the message stays, nothing is pending, and
  -- what was pending has become a downloaded addon, where the client has the RSS assets enabled.
  abbrev pub IsOrder : Manager T → ℕ → ℕ → Bytes → Sending T → Option Bytes → Type 0
  IsOrder m id k s r none =
      let before = client_info fl m id in
      let after = client_info fl r.manager id in
      (r.message ≡ signon (other_state k) s)
      × (after.current_pending_addon ≡ [])
      × ((x : Bytes)
          → contains x after.downloaded_addons ≡ (
              contains x before.downloaded_addons
              || (is_client_rss_assets_enabled m id
                  && (not (is_empty before.current_pending_addon)
                      && equal before.current_pending_addon x))))
  IsOrder m id k s r (some a) =
      (r.message ≡ signon changelevel a)
      × ((client_info fl r.manager id).current_pending_addon ≡ a)
      × ((client_info fl r.manager id).downloaded_addons ≡ (client_info fl m id).downloaded_addons)

  completed_downloads :
      (enabled : Bool) (info : ClientAddonInfo T) (x : Bytes)
      → contains x (complete_pending enabled info).downloaded_addons ≡ (
          contains x info.downloaded_addons
          || (enabled
              && (not (is_empty info.current_pending_addon) && equal info.current_pending_addon x)))
  unfolding complete_pending contains
  completed_downloads enabled info x =
      ground (arith, contains-append x info.downloaded_addons (info.current_pending_addon ∷ []))

  completed_pending :
      (enabled : Bool) (info : ClientAddonInfo T)
      → (complete_pending enabled info).current_pending_addon ≡ []
  unfolding complete_pending
  completed_pending enabled info = refl

  -- On a dedicated server, a signon message that changes no level becomes an order to fetch the
  -- first required addon that is not downloaded, which becomes the pending one while what is
  -- downloaded stays; where every required addon is downloaded, the message goes out unchanged,
  -- nothing is pending, and the downloaded addons are those from before and, if the client has the
  -- RSS assets enabled, the addon that was pending.
  pub send-IsOrder :
      (now : T) (m : Manager T) (id k : ℕ) (s : Bytes)
      → IsOrder m id k s
          (hook_send_net_message fl true now m id (signon (other_state k) s))
          (first_missing (client_info fl m id).downloaded_addons (get_client_addons fl m id false))
  unfolding head_option
  send-IsOrder now m id k s =
      subst (IsOrder m id k s (hook_send_net_message fl true now m id (signon (other_state k) s)))
        (first_missing_lem m id) (go (missing_addons fl m id) refl)
    where
      go :
          (missing : List Bytes)
          → missing_addons fl m id ≡ missing
          → IsOrder m id k s
              (hook_send_net_message fl true now m id (signon (other_state k) s))
              (head_option missing)
      go [] e =
          let enabled = is_client_rss_assets_enabled m id in
          let info = complete_pending enabled (touched fl now m id) in
          let put = client_info_put fl (touched_manager fl now m id) id info in
          subst (λ r. IsOrder m id k s r none) (sym (send_complete fl now m id k s e))
            (
              refl,
              ap (λ (i : ClientAddonInfo T). i.current_pending_addon) put
                  ∙ completed_pending enabled (touched fl now m id),
              λ x.
                  ap (λ (i : ClientAddonInfo T). contains x i.downloaded_addons) put
                  ∙ completed_downloads enabled (touched fl now m id) x,
            )
      go (a ∷ rest) e =
          let info = record (touched fl now m id) { current_pending_addon = a } in
          let put = client_info_put fl (touched_manager fl now m id) id info in
          subst (λ r. IsOrder m id k s r (some a)) (sym (send_missing fl now m id k s a rest e))
            (
              refl,
              ap (λ (i : ClientAddonInfo T). i.current_pending_addon) put,
              ap (λ (i : ClientAddonInfo T). i.downloaded_addons) put,
            )
