-- ===== src/Host/Requests.antt =====
-- The addons that a level change asks the server to load.
use multi_addon_rss.Addons.{
  contains, find_and_remove, is_empty, is_nil, string_to_vector, vector_to_string,
}
use multi_addon_rss.Addons.Lists.{Distinct, contains-find_and_remove, find_and_remove-Distinct}
use multi_addon_rss.Addons.Split.{
  AllIds, find_and_remove-AllIds, has_comma, string_to_vector-vector_to_string,
}
use multi_addon_rss.Base.{
  Bool-cases, Bytes, List, arith, codes, equal, equal_iff, equal_refl, false, inl, inr, map, not,
  some, true, ◌&&◌, ◌||◌, ◌≡◌,
}
use multi_addon_rss.Clients.{Manager}
use multi_addon_rss.Host.{
  HostQueries, HostStateRequest, hook_set_pending_host_state_request, rebuilt_addons, requested_map,
  settled_map,
}

-- A list of extra addons that is not empty, and a map, name addons by ids.
rebuilt-AllIds :
    (extra : List Bytes) (map : Bytes)
    → AllIds extra
    → has_comma map ≡ false
    → AllIds (rebuilt_addons extra map)
unfolding rebuilt_addons
rebuilt-AllIds extra map ids h = elim (Bool-cases (is_empty map)) [
  | inl e ↦ rw e ids
  | inr e ↦ rw e ((e, h), find_and_remove-AllIds map extra ids)
]

contains-rebuilt :
    (extra : List Bytes) (map a : Bytes)
    → Distinct extra
    → contains a (rebuilt_addons extra map)
      ≡ ((not (is_empty map) && equal map a) || contains a extra)
unfolding rebuilt_addons contains
contains-rebuilt extra map a d =
    ground (arith, contains-find_and_remove map a extra d, equal_iff map a)

rebuilt-Distinct :
    (extra : List Bytes) (map : Bytes) → Distinct extra → Distinct (rebuilt_addons extra map)
unfolding rebuilt_addons
rebuilt-Distinct extra map d = elim (Bool-cases (is_empty map)) [
  | inl e ↦ rw e d
  | inr e ↦ rw e (removed_not_contained, find_and_remove-Distinct map extra d)
]
  where
    removed_not_contained : contains map (find_and_remove map extra) ≡ false
    removed_not_contained = ground (arith, contains-find_and_remove map map extra d, equal_refl map)

-- With extra addons, distinct ids without a comma, and a workshop map without a comma, the list that
-- a level change asks for splits to distinct ids: the workshop map, if there is one, and the extra
-- addons.
pub request_addons :
    {T : Type 0} (q : HostQueries) (m : Manager T) (r : HostStateRequest)
    → is_nil m.extra_addons ≡ false
    → AllIds m.extra_addons
    → Distinct m.extra_addons
    → has_comma (settled_map q r m.current_workshop_map) ≡ false
    → let after = hook_set_pending_host_state_request q m r in
      let map = after.0.current_workshop_map in
      let l = string_to_vector after.1.addons in
      Distinct l
      × ((a : Bytes)
          → contains a l ≡ ((not (is_empty map) && equal map a) || contains a m.extra_addons))
unfolding hook_set_pending_host_state_request
request_addons q m r some_extra ids d plain =
    let map = settled_map q r m.current_workshop_map in
    let split : string_to_vector (vector_to_string (rebuilt_addons m.extra_addons map))
        ≡ rebuilt_addons m.extra_addons map =
      string_to_vector-vector_to_string (rebuilt_addons m.extra_addons map)
        (rebuilt-AllIds m.extra_addons map ids plain) in
    rw (some_extra, split)
      (rebuilt-Distinct m.extra_addons map d, λ a. contains-rebuilt m.extra_addons map a d)

-- A request with the keys "ChangeLevel" that names no official addon keeps the workshop map.
pub change_level_keeps_map :
    {T : Type 0} (q : HostQueries) (m : Manager T) (level addons mode : Bytes) (name : Bytes)
    → q.same_name name (codes "ChangeLevel") ≡ true
    → q.is_official_addon addons ≡ false
    → (hook_set_pending_host_state_request q m (record {
      keys = some (record { name = name; custom_game_mode = mode });
      level_name = level;
      addons = addons;
    })).0.current_workshop_map
      ≡ m.current_workshop_map
unfolding hook_set_pending_host_state_request requested_map settled_map
change_level_keeps_map q m level addons mode name e f = ground arith
