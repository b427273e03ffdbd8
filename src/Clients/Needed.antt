-- ===== src/Clients/Needed.antt =====
-- What `GetClientAddons` lists.
use multi_addon_rss.Addons.{contains, is_empty}
use multi_addon_rss.Addons.Lists.{Distinct}
use multi_addon_rss.Base.{
  Bool, Bytes, List, [], ap, arith, equal_refl, false, if◌then◌else◌, not, refl, true, ℕ, ◌&&◌,
  ◌==◌, ◌||◌, ◌∙◌, ◌∷◌, ◌≡◌,
}
use multi_addon_rss.Clients.{
  ClientAddonInfo, Floats, Manager, add_all_listed, client_info, collect_addons, get_client_addons,
  is_client_rss_assets_enabled, is_skipped, put_client, skip_rss_assets,
}
use multi_addon_rss.Clients.Added.{
  add_all_listed-Distinct, add_all_listed-cons, add_all_listed-drop_skipped,
  contains-add_all_listed, drop_skipped,
}

abbrev pub first_of_map : Bytes → List Bytes
first_of_map map = if is_empty map then [] else map ∷ []

module _ (map : Bytes) where
  first_of_map-Distinct : Distinct (first_of_map map)
  first_of_map-Distinct = go (is_empty map)
    where
      go : (b : Bool) → Distinct (if b then [] else map ∷ [])
      go true = tt
      go false = (unfold contains in refl, tt)

  equal_map-is_skipped : (skip : Bool) → is_empty map ≡ false → is_skipped skip map map ≡ false
  unfolding is_skipped
  equal_map-is_skipped skip h = ground (arith, equal_refl map)

  drop_skipped-first_of_map : drop_skipped map (first_of_map map) ≡ first_of_map map
  unfolding drop_skipped
  drop_skipped-first_of_map = ground (arith, equal_map-is_skipped true)

module _ {T : Type 0} (fl : Floats T) (m : Manager T) (id : ℕ) where
  -- Some list that applies to the client has the id.
  abbrev pub is_listed : Bytes → Bool
  is_listed a =
      contains a m.mounted_addons
      || (contains a m.global_client_addons
          || (not (id == 0) && contains a (client_info fl m id).addons_to_load))

  collect_addons-Distinct : (skip : Bool) → Distinct (collect_addons fl m id skip)
  unfolding collect_addons
  collect_addons-Distinct skip = go (id == 0)
    where
      map : Bytes
      map = m.current_workshop_map

      global : Distinct (
          add_all_listed skip map
            (add_all_listed skip map (first_of_map map) m.mounted_addons)
            m.global_client_addons)
      global =
          add_all_listed-Distinct skip map _ m.global_client_addons
            (add_all_listed-Distinct skip map _ m.mounted_addons (first_of_map-Distinct map))

      go :
          (b : Bool)
          → Distinct (
              if b
              then add_all_listed skip map
                  (add_all_listed skip map (first_of_map map) m.mounted_addons)
                  m.global_client_addons
              else add_all_listed skip map
                  (add_all_listed skip map
                    (add_all_listed skip map (first_of_map map) m.mounted_addons)
                    m.global_client_addons)
                  (client_info fl m id).addons_to_load)
      go true = global
      go false = add_all_listed-Distinct skip map _ (client_info fl m id).addons_to_load global

  contains-collect_addons :
      (skip : Bool) (a : Bytes)
      → contains a (collect_addons fl m id skip) ≡ (
          contains a (first_of_map m.current_workshop_map)
          || (is_listed a && not (is_skipped skip m.current_workshop_map a)))
  unfolding collect_addons
  contains-collect_addons skip a =
      let map = m.current_workshop_map in
      let first = first_of_map map in
      let mounted = add_all_listed skip map first m.mounted_addons in
      let global = add_all_listed skip map mounted m.global_client_addons in
      ground (
        arith,
        contains-add_all_listed skip map first m.mounted_addons a,
        contains-add_all_listed skip map mounted m.global_client_addons a,
        contains-add_all_listed skip map global (client_info fl m id).addons_to_load a,
      )

  collect_addons-drop_skipped :
      collect_addons fl m id true
      ≡ drop_skipped m.current_workshop_map (collect_addons fl m id false)
  unfolding collect_addons
  collect_addons-drop_skipped =
      let map = m.current_workshop_map in
      let first = first_of_map map in
      let mounted = add_all_listed false map first m.mounted_addons in
      let global = add_all_listed false map mounted m.global_client_addons in
      ground (
        arith,
        drop_skipped-first_of_map map,
        add_all_listed-drop_skipped map first m.mounted_addons,
        add_all_listed-drop_skipped map mounted m.global_client_addons,
        add_all_listed-drop_skipped map global (client_info fl m id).addons_to_load,
      )

  -- `GetClientAddons` lists no addon twice.
  pub get_client_addons-Distinct : (include : Bool) → Distinct (get_client_addons fl m id include)
  unfolding get_client_addons
  get_client_addons-Distinct include = collect_addons-Distinct (skip_rss_assets m id include)

  -- `GetClientAddons` lists an addon exactly if it is the workshop map, or stands in one of the
  -- lists that apply to the client and is not skipped.
  pub contains-get_client_addons :
      (include : Bool) (a : Bytes)
      → contains a (get_client_addons fl m id include) ≡ (
          contains a (first_of_map m.current_workshop_map)
          || (is_listed a
              && not (is_skipped (skip_rss_assets m id include) m.current_workshop_map a)))
  unfolding get_client_addons
  contains-get_client_addons include a = contains-collect_addons (skip_rss_assets m id include) a

  -- For a client that opted out, the required addons are its full list without the RSS assets other
  -- than the workshop map, in the same order; for any other client they are the full list.
  pub required_of_full : get_client_addons fl m id false ≡ (
      if is_client_rss_assets_enabled m id
      then get_client_addons fl m id true
      else drop_skipped m.current_workshop_map (get_client_addons fl m id true))
  unfolding get_client_addons skip_rss_assets is_client_rss_assets_enabled
  required_of_full = ground (arith, collect_addons-drop_skipped)

  collect_addons_first :
      (skip : Bool)
      → is_empty m.current_workshop_map ≡ false
      → (r : List Bytes) × (collect_addons fl m id skip ≡ m.current_workshop_map ∷ r)
  unfolding collect_addons
  collect_addons_first skip h =
      let map = m.current_workshop_map in
      let (r₁, e₁) = add_all_listed-cons skip map map [] m.mounted_addons in
      let (r₂, e₂) = add_all_listed-cons skip map map r₁ m.global_client_addons in
      let (r₃, e₃) = add_all_listed-cons skip map map r₂ (client_info fl m id).addons_to_load in
      (if id == 0 then r₂ else r₃, ground arith)

  -- Where there is a workshop map, it stands first in every list of `GetClientAddons`, RSS asset or
  -- not.
  pub get_client_addons_first :
      (include : Bool)
      → is_empty m.current_workshop_map ≡ false
      → (r : List Bytes) × (get_client_addons fl m id include ≡ m.current_workshop_map ∷ r)
  unfolding get_client_addons
  get_client_addons_first include h = collect_addons_first (skip_rss_assets m id include) h

-- The lists do not depend on the rest of the client's entry.
module _ {T : Type 0} (fl : Floats T) (m : Manager T) (id : ℕ) (info : ClientAddonInfo T) where
  pub client_info_put : client_info fl (put_client id info m) id ≡ info
  client_info_put = ground arith

  pub get_client_addons_put :
      (include : Bool)
      → info.addons_to_load ≡ (client_info fl m id).addons_to_load
      → get_client_addons fl (put_client id info m) id include ≡ get_client_addons fl m id include
  unfolding get_client_addons collect_addons skip_rss_assets is_client_rss_assets_enabled
  get_client_addons_put include e =
      let map = m.current_workshop_map in
      let skip = skip_rss_assets m id include in
      let mounted = add_all_listed skip map (first_of_map map) m.mounted_addons in
      let global = add_all_listed skip map mounted m.global_client_addons in
      ap (λ own. if id == 0 then global else add_all_listed skip map global own)
        (ap (λ (i : ClientAddonInfo T). i.addons_to_load) client_info_put ∙ e)
