-- ===== src/ClientLists/Notices.antt =====
-- Whom `AddClientAddon` tells, and what stands in the list behind it.
use multi_addon_rss.Addons.{contains, find_and_remove, is_empty, is_nil}
use multi_addon_rss.Addons.Lists.{
  Distinct, Distinct-snoc, contains-append, contains-remove_each, find_and_remove-snoc,
}
use multi_addon_rss.Base.{
  Bool, Bool-cases, Bytes, List, [], ap, arith, equal, equal_iff, false, if◌then◌else◌, inl, inr,
  length, not, refl, true, ℕ, ◌&&◌, ◌++◌, ◌==◌, ◌||◌, ◌∙◌, ◌∷◌, ◌≡◌, ◌≤◌,
}
use multi_addon_rss.ClientLists.{
  ConnectedClient, ListChange, add_client_addon, client_list, remove_client_addon, set_client_list,
  tell_client, tell_clients,
}
use multi_addon_rss.Clients.{ClientAddonInfo, Floats, Manager, client_info, get_client_addons}
use multi_addon_rss.Clients.Needed.{client_info_put, get_client_addons-Distinct}
use multi_addon_rss.SignOn.{head_or_empty, is_changelevel, missing_addons}

not_first_empty :
    (xs : List Bytes)
    → contains [] xs ≡ false
    → is_nil xs ≡ false
    → is_empty (head_or_empty xs) ≡ false
unfolding contains is_nil is_empty equal
not_first_empty [] h k = cc
not_first_empty ([] ∷ xs) h k = ground arith
not_first_empty ((c ∷ a) ∷ xs) h k = refl

holds-if : {A : Type 0} (P : A → Type 0) (b : Bool) (x y : A) → P x → P y → P (if b then x else y)
holds-if P true x y p q = p
holds-if P false x y p q = q

module _ {T : Type 0} (fl : Floats T) where
  -- An entry that has an addon pending is not told of another.
  tell_pending :
      (id : ℕ) (m : Manager T) (clients : List ConnectedClient)
      → is_empty (client_info fl m id).current_pending_addon ≡ false
      → (tell_clients fl id m clients).told ≡ []
  unfolding tell_clients
  tell_pending id m [] h = refl
  tell_pending id m (c ∷ clients) h = let rest = tell_pending id m clients h in ground arith

  no_empty_missing :
      (m : Manager T) (id : ℕ)
      → contains [] (get_client_addons fl m id false) ≡ false
      → contains [] (missing_addons fl m id) ≡ false
  unfolding missing_addons
  no_empty_missing m id h =
      let d = (client_info fl m id).downloaded_addons in
      let xs = get_client_addons fl m id false in
      ground (arith, contains-remove_each [] d xs (get_client_addons-Distinct fl m id false))

  tell_one :
      (id : ℕ) (m : Manager T) (clients : List ConnectedClient)
      → contains [] (get_client_addons fl m id false) ≡ false
      → length (tell_clients fl id m clients).told ≤ 1
  unfolding tell_clients
  tell_one id m [] h = omega arith
  tell_one id m (c ∷ clients) h =
      let rest = tell_one id m clients h in
      let missing = missing_addons fl m id in
      let told = record (client_info fl m id) { current_pending_addon = head_or_empty missing } in
      elim (Bool-cases (is_nil missing)) [
        | inl e ↦ ground arith
        | inr e ↦
            let pending =
              ap (λ (i : ClientAddonInfo T). is_empty i.current_pending_addon)
                (client_info_put fl m id told)
              ∙ not_first_empty missing (no_empty_missing m id h) e in
            let silent =
              ap length
                (tell_pending id (tell_client fl m id (head_or_empty missing)) clients pending) in
            ground arith
      ]

  client_list-set :
      (m : Manager T) (id : ℕ) (xs : List Bytes)
      → client_list fl (set_client_list fl id xs m) id ≡ xs
  client_list-set m id xs = elim (Bool-cases (id == 0)) [
    | inl e ↦ rw e refl
    | inr e ↦ rw e (ap (λ (i : ClientAddonInfo T). i.addons_to_load) (client_info_put fl m id _))
  ]

  client_list-tell :
      (m : Manager T) (id : ℕ) (a : Bytes)
      → client_list fl (tell_client fl m id a) id ≡ client_list fl m id
  client_list-tell m id a =
      ap (λ (i : ClientAddonInfo T). if id == 0 then m.global_client_addons else i.addons_to_load)
        (client_info_put fl m id _)

  client_list-tell_clients :
      (m : Manager T) (id : ℕ) (clients : List ConnectedClient)
      → client_list fl (tell_clients fl id m clients).manager id ≡ client_list fl m id
  unfolding tell_clients
  client_list-tell_clients m id [] = refl
  client_list-tell_clients m id (c ∷ clients) =
      let a = head_or_empty (missing_addons fl m id) in
      let others = client_list-tell_clients m id clients in
      let told = client_list-tell m id a in
      let next = client_list-tell_clients (tell_client fl m id a) id clients in
      let m' = tell_client fl m id a in
      let rest = tell_clients fl id m' clients in
      let P : ListChange T → Type 0 = λ r. client_list fl r.manager id ≡ client_list fl m id in
      let stop : ListChange T = record { manager = m; told = [] } in
      let one : ListChange T = record { manager = m'; told = c.steam_id ∷ [] } in
      let more : ListChange T = record { manager = rest.manager; told = c.steam_id ∷ rest.told } in
      let loading = is_changelevel c.signon_state in
      let busy =
        not (is_empty (client_info fl m id).current_pending_addon)
        || is_nil (missing_addons fl m id) in
      let found = if not (id == 0) then one else more in
      holds-if P (id == 0 || c.steam_id == id) (if loading || busy then stop else found)
        (tell_clients fl id m clients)
        (holds-if P (loading || busy) stop found refl
          (holds-if P (not (id == 0)) one more told (next ∙ told)))
        others

  -- `AddClientAddon` leaves in the list it is for the addons that stood there and the new one, none
  -- of them twice if none was, whomever it tells.
  pub add_client_addon-list :
      (has_message : Bool) (clients : List ConnectedClient) (m : Manager T) (addon : Bytes) (id : ℕ)
      (refresh : Bool)
      → Distinct (client_list fl m id)
      → let l =
          client_list fl (add_client_addon fl has_message clients m addon id refresh).manager id in
        Distinct l
        × ((a : Bytes) → contains a l ≡ (contains a (client_list fl m id) || equal addon a))
  unfolding add_client_addon
  add_client_addon-list has_message clients m addon id refresh d =
      let m' = set_client_list fl id (client_list fl m id ++ addon ∷ []) m in
      elim (Bool-cases (contains addon (client_list fl m id))) [
        | inl e ↦ rw e (d, λ a. ground (arith, equal_iff addon a))
        | inr e ↦ elim (Bool-cases (refresh && has_message)) [
          | inl k ↦ rw (e, k, client_list-tell_clients m' id clients, client_list-set) (added e)
          | inr k ↦ rw (e, k, client_list-set) (added e)
        ]
      ]
    where
      added :
          contains addon (client_list fl m id) ≡ false
          → let l = client_list fl m id ++ addon ∷ [] in
            Distinct l
            × ((a : Bytes) → contains a l ≡ (contains a (client_list fl m id) || equal addon a))
      added e = (
        Distinct-snoc addon (client_list fl m id) d e,
        λ a.
            contains-append a (client_list fl m id) (addon ∷ [])
            ∙ ap (λ b. contains a (client_list fl m id) || b) (unfold contains in ground arith),
      )

  -- A refresh of `AddClientAddon` sends its message to one client at most, even where the addon is
  -- for all clients, if no addon listed behind the addition is the empty string.
  pub add_client_addon_told :
      (has_message : Bool) (clients : List ConnectedClient) (m : Manager T) (addon : Bytes) (id : ℕ)
      (refresh : Bool)
      → contains [] (
          get_client_addons fl
            (set_client_list fl id (client_list fl m id ++ addon ∷ []) m)
            id
            false)
        ≡ false
      → length (add_client_addon fl has_message clients m addon id refresh).told ≤ 1
  unfolding add_client_addon
  add_client_addon_told has_message clients m addon id refresh h =
      let one =
        tell_one id (set_client_list fl id (client_list fl m id ++ addon ∷ []) m) clients h in
      ground arith

  added_change :
      (m : Manager T) (addon : Bytes) (id : ℕ)
      → contains addon (client_list fl m id) ≡ false
      → add_client_addon fl false [] m addon id false ≡ record {
        manager = set_client_list fl id (client_list fl m id ++ addon ∷ []) m;
        told = [];
      }
  unfolding add_client_addon
  added_change m addon id h = rw h

  -- `RemoveClientAddon` behind an `AddClientAddon` without a refresh restores the list, where the
  -- addon was not in it.
  pub remove-add :
      (m : Manager T) (addon : Bytes) (id : ℕ)
      → contains addon (client_list fl m id) ≡ false
      → client_list fl
          (remove_client_addon fl (add_client_addon fl false [] m addon id false).manager addon id)
          id
        ≡ client_list fl m id
  unfolding add_client_addon remove_client_addon
  remove-add m addon id h =
      let m' = set_client_list fl id (client_list fl m id ++ addon ∷ []) m in
      ap
        (λ (r : ListChange T).
          client_list fl
            (set_client_list fl id (find_and_remove addon (client_list fl r.manager id)) r.manager)
            id)
        (added_change m addon id h)
      ∙ client_list-set m' id (find_and_remove addon (client_list fl m' id))
      ∙ ap (find_and_remove addon) (client_list-set m id (client_list fl m id ++ addon ∷ []))
      ∙ find_and_remove-snoc addon (client_list fl m id) h
