-- ===== src/Mounts/Tests.antt =====
-- A server with two addons mounted, on an engine whose search paths are a list.
use multi_addon_rss.Addons.{
  contains, find_and_remove, is_empty, split_at_commas, string_to_vector, vector_to_string,
}
use multi_addon_rss.Addons.Lists.{contains-find_and_remove, find_and_remove-Distinct}
use multi_addon_rss.Addons.Split.{has_comma}
use multi_addon_rss.Base.{
  Bool, Bool-cases, Bytes, List, [], ap, arith, codes, equal, equal_iff, false, inl, inr, length,
  refl, subst, suc, true, ℕ, ◌∷◌, ◌≡◌,
}
use multi_addon_rss.Clients.{
  get_client_addons, is_client_rss_assets_enabled, is_skipped, skip_rss_assets,
}
use multi_addon_rss.Downloads.{is_listed_id}
use multi_addon_rss.Mounts.{
  Server, add_addon, build_addon_path, finish_download, refresh_addons, reload_map, remove_addon,
}
use multi_addon_rss.Mounts.Cleared.{FastRemoves, Held, RemovesHeld, Separate}
use multi_addon_rss.Mounts.Holding.{AddsHeld, refresh_addons-Held}
use multi_addon_rss.Mounts.Lists.{add_addon_listed, remove_addon-add_addon}
use multi_addon_rss.Mounts.Refresh.{refresh_addons_mounts}
use multi_addon_rss.Mounts.Steps.{IsSound, Reaches, Reaches-IsSound, adds, finishes, stays, steps}
use multi_addon_rss.Prefs.IdSet.{member}
use multi_addon_rss.Samples.{
  map_addon, nat_floats, plain_addon, rss_addon, sample_engine, sample_server, sample_steam,
}

length-find_and_remove :
    (a : Bytes) (xs : List Bytes)
    → contains a xs ≡ true
    → length xs ≡ suc (length (find_and_remove a xs))
unfolding contains find_and_remove
length-find_and_remove a [] h = absurd (ground arith)
length-find_and_remove a (x ∷ xs) h = elim (Bool-cases (equal x a)) [
  | inl e ↦ rw e refl
  | inr e ↦ rw e (ap suc (length-find_and_remove a xs (ground arith)))
]

find_and_remove-FastRemoves : FastRemoves sample_engine
find_and_remove-FastRemoves a xs h d = (
  length-find_and_remove a xs h,
  find_and_remove-Distinct a xs d,
  λ b. contains-find_and_remove a b xs d,
)

-- What holds of two addons holds of the addons of their list.
of_two : (P : Bytes → Type 0) (x y a : Bytes) → contains a (x ∷ y ∷ []) ≡ true → P x → P y → P a
unfolding contains
of_two P x y a h p q = elim (Bool-cases (equal x a)) [
  | inl e ↦ subst P ((equal_iff x a).0 e) p
  | inr e ↦ subst P ((equal_iff y a).0 (ground arith)) q
]

-- Another path stays.
other_path :
    (p q : Bytes) (paths : List Bytes)
    → equal p q ≡ false
    → contains q (find_and_remove p paths) ≡ contains q paths
unfolding contains find_and_remove
other_path p q [] h = refl
other_path p q (x ∷ paths) h =
    ground (arith, other_path p q paths h, equal_iff x p, equal_iff x q, equal_iff p q)

sample_engine-RemovesHeld : RemovesHeld sample_engine contains
sample_engine-RemovesHeld p paths = (refl, λ q h. other_path p q paths h)

sample_server-Held :
    Held sample_engine contains sample_server.manager.mounted_addons sample_server.search_paths
unfolding contains equal build_addon_path is_empty
sample_server-Held =
    ((refl, (refl, tt)), λ a h. of_two IsHeld rss_addon plain_addon a h (refl, refl) (refl, refl))
  where
    IsHeld : Bytes → Type 0
    IsHeld a =
        (is_empty a ≡ false)
        × (contains (build_addon_path sample_engine a false) sample_server.search_paths ≡ true)

sample_server-Separate : Separate sample_engine sample_server.manager.mounted_addons
unfolding contains equal build_addon_path
sample_server-Separate a b h k =
    of_two (λ a. IsApart a b) rss_addon plain_addon a h
      (of_two (λ b. IsApart rss_addon b) rss_addon plain_addon b k (λ ne. absurd (ground arith))
        (λ ne. refl))
      (of_two (λ b. IsApart plain_addon b) rss_addon plain_addon b k (λ ne. refl)
        (λ ne. absurd (ground arith)))
  where
    IsApart : Bytes → Bytes → Type 0
    IsApart a b =
        equal a b ≡ false
        → equal (build_addon_path sample_engine a false) (build_addon_path sample_engine b false)
          ≡ false

sample_server-IsSound : IsSound sample_server
unfolding string_to_vector split_at_commas is_listed_id is_empty
sample_server-IsSound =
    ((refl, ((refl, refl), tt)), ((refl, (refl, tt)), (refl, tt), λ x h. ground arith))

refresh_addons_mounts_example :
    ((refresh_addons sample_engine sample_steam true sample_server).manager
      ≡ record sample_server.manager { mounted_addons = plain_addon ∷ [] })
    × ((refresh_addons sample_engine sample_steam true sample_server).commands
        ≡ codes "changelevel de_dust2" ∷ [])
unfolding contains is_empty string_to_vector split_at_commas equal reload_map
refresh_addons_mounts_example =
    refresh_addons_mounts sample_engine sample_steam contains true sample_server refl
      find_and_remove-FastRemoves sample_engine-RemovesHeld sample_server-Separate
      sample_server-Held

remove_addon-add_addon_example :
    remove_addon sample_engine sample_steam map_addon false
      (add_addon sample_engine sample_steam map_addon false sample_server).1
    ≡ (true, sample_server)
unfolding contains equal vector_to_string
remove_addon-add_addon_example =
    remove_addon-add_addon sample_engine sample_steam map_addon sample_server refl refl

add_addon_listed_example :
    contains map_addon (
      get_client_addons nat_floats
        (add_addon sample_engine sample_steam map_addon true sample_server).1.manager
        5
        false)
    ≡ true
unfolding contains equal is_empty string_to_vector split_at_commas skip_rss_assets is_skipped
    is_client_rss_assets_enabled member
add_addon_listed_example =
    add_addon_listed sample_engine sample_steam nat_floats contains map_addon sample_server 5 false
      refl find_and_remove-FastRemoves sample_engine-RemovesHeld sample_server-Separate
      sample_server-Held refl refl

abbrev finished : Server ℕ (List Bytes)
finished =
    finish_download sample_engine sample_steam 11
      (add_addon sample_engine sample_steam map_addon false sample_server).1

finished-Reaches : Reaches sample_engine sample_steam (λ paths. paths) sample_server finished
unfolding contains equal add_addon has_comma is_empty
finished-Reaches =
    steps (steps stays (adds map_addon false (refl, refl))) (finishes 11 (12 ∷ []) refl)

Reaches-IsSound_example : IsSound finished
Reaches-IsSound_example =
    Reaches-IsSound sample_engine sample_steam (λ paths. paths) sample_server finished
      finished-Reaches sample_server-IsSound

contains_more : (p q : Bytes) (w : List Bytes) → contains q w ≡ true → contains q (p ∷ w) ≡ true
unfolding contains
contains_more p q w h = ground arith

plain_twice :
    (a : Bytes)
    → contains a (plain_addon ∷ []) ≡ true
    → contains a (plain_addon ∷ plain_addon ∷ []) ≡ true
plain_twice a h = contains_more plain_addon a (plain_addon ∷ []) h

plain-AddsHeld : AddsHeld sample_engine contains (plain_addon ∷ [])
unfolding contains equal build_addon_path
plain-AddsHeld a h = of_two IsAdded plain_addon plain_addon a (plain_twice a h) added added
  where
    IsAdded : Bytes → Type 0
    IsAdded a =
        (to_tail : Bool) (w : List Bytes)
        → (contains (build_addon_path sample_engine a false)
              (sample_engine.add_search_path (build_addon_path sample_engine a true) to_tail w)
            ≡ true)
          × ((q : Bytes)
              → contains q w ≡ true
              → contains q
                  (sample_engine.add_search_path (build_addon_path sample_engine a true) to_tail w)
                ≡ true)

    added : IsAdded plain_addon
    added to_tail w =
        (refl, λ q k. contains_more (build_addon_path sample_engine plain_addon false) q w k)

refresh_addons-Held_example :
    let after = refresh_addons sample_engine sample_steam true sample_server in
    Held sample_engine contains after.manager.mounted_addons after.search_paths
refresh_addons-Held_example =
    refresh_addons-Held sample_engine sample_steam contains true sample_server
      find_and_remove-FastRemoves sample_engine-RemovesHeld plain-AddsHeld sample_server-Separate
      sample_server-Held
