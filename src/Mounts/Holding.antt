-- ===== src/Mounts/Holding.antt =====
-- What `RefreshAddons` mounts is held by the search paths, so that the next refresh can unmount it.
use multi_addon_rss.Addons.{contains, is_empty}
use multi_addon_rss.Addons.Lists.{Distinct-snoc, contains-append}
use multi_addon_rss.Base.{
  Bool, Bool-cases, Bytes, List, [], arith, equal, equal_iff, equal_refl, false, if◌then◌else◌, inl,
  inr, not, refl, subst, sym, true, ◌&&◌, ◌++◌, ◌∷◌, ◌≡◌,
}
use multi_addon_rss.Clients.{Manager}
use multi_addon_rss.Downloads.{Steam}
use multi_addon_rss.Mounts.{
  Engine, Server, build_addon_path, download, mount_addon, mount_each, mount_files, refresh_addons,
  reload_map, unmount_all,
}
use multi_addon_rss.Mounts.Cleared.{FastRemoves, Held, RemovesHeld, Separate, unmount_all_empties}
use multi_addon_rss.Mounts.Refresh.{is_mountable}

-- A path that `MountAddon` law for an addon of a list is held by its name with `_dir`, and no path
-- goes by it: "the filesystem will append suffixes if needed".
abbrev pub AddsHeld : {W : Type 0} → Engine W → (Bytes → W → Bool) → List Bytes → Type 0
AddsHeld {W} eng held addons =
    (a : Bytes)
    → contains a addons ≡ true
    → (to_tail : Bool) (w : W)
    → (held (build_addon_path eng a false)
          (eng.add_search_path (build_addon_path eng a true) to_tail w)
        ≡ true)
      × ((q : Bytes)
          → held q w ≡ true
          → held q (eng.add_search_path (build_addon_path eng a true) to_tail w) ≡ true)

abbrev IsHeld : {W : Type 0} → Engine W → (Bytes → W → Bool) → List Bytes × W → Type 0
IsHeld eng held x = Held eng held x.0 x.1

-- What is mounted, and the search paths.
abbrev mounted_paths : {T W : Type 0} → Server T W → List Bytes × W
mounted_paths s = (s.manager.mounted_addons, s.search_paths)

nil-Held : {W : Type 0} (eng : Engine W) (held : Bytes → W → Bool) (w : W) → Held eng held [] w
unfolding contains
nil-Held eng held w = (tt, λ a h. absurd (ground arith))

contains_first : (a : Bytes) (xs : List Bytes) → contains a (a ∷ xs) ≡ true
unfolding contains
contains_first a xs = ground (arith, equal_refl a)

contains_later : (b a : Bytes) (xs : List Bytes) → contains b xs ≡ true → contains b (a ∷ xs) ≡ true
unfolding contains
contains_later b a xs h = ground arith

last_other :
    (a b : Bytes) (xs : List Bytes)
    → equal a b ≡ false
    → contains b (xs ++ a ∷ []) ≡ true
    → contains b xs ≡ true
unfolding contains
last_other a b xs ne h = ground (arith, contains-append b xs (a ∷ []))

module _ {T W : Type 0} (eng : Engine W) (steam : Steam) (held : Bytes → W → Bool) where
  abbrev mounts_now : Bytes → Server T W → Bool
  mounts_now a s =
      is_mountable eng steam s.manager.current_workshop_map a
      && not (contains a s.manager.mounted_addons)

  mount_addon_now :
      (a : Bytes) (t : Bool) (s : Server T W)
      → mounted_paths (mount_addon eng steam a t s).1 ≡ (
          if mounts_now a s
          then (
            s.manager.mounted_addons ++ a ∷ [],
            eng.add_search_path (build_addon_path eng a true) t s.search_paths,
          )
          else mounted_paths s)
  unfolding mount_addon mount_files download
  mount_addon_now a t s = ground arith

  mount_addon-Held :
      (a : Bytes) (addons : List Bytes) (t : Bool) (s : Server T W)
      → AddsHeld eng held addons
      → contains a addons ≡ true
      → Held eng held s.manager.mounted_addons s.search_paths
      → let after = (mount_addon eng steam a t s).1 in
        Held eng held after.manager.mounted_addons after.search_paths
  mount_addon-Held a addons t s law inside h =
      subst (IsHeld eng held) (sym (mount_addon_now a t s)) (go (mounts_now a s) refl)
    where
      path : W
      path = eng.add_search_path (build_addon_path eng a true) t s.search_paths

      added :
          mounts_now a s ≡ true
          → (b : Bytes) → contains b (s.manager.mounted_addons ++ a ∷ []) ≡ true
          → (is_empty b ≡ false) × (held (build_addon_path eng b false) path ≡ true)
      added e b k = elim (Bool-cases (equal a b)) [
        | inl same ↦
            subst (λ b. (is_empty b ≡ false) × (held (build_addon_path eng b false) path ≡ true))
              ((equal_iff a b).0 same) (ground (arith, e), (law a inside t s.search_paths).0)
        | inr other ↦
            let old : contains b s.manager.mounted_addons ≡ true =
              last_other a b s.manager.mounted_addons other k in
            (
              (h.1 b old).0,
              (law a inside t s.search_paths).1 (build_addon_path eng b false) (h.1 b old).1,
            )
      ]

      go :
          (c : Bool)
          → mounts_now a s ≡ c
          → IsHeld eng held (
              if c
              then (s.manager.mounted_addons ++ a ∷ [], path)
              else (s.manager.mounted_addons, s.search_paths))
      go true e = (Distinct-snoc a s.manager.mounted_addons h.0 (ground (arith, e)), added e)
      go false e = h

  mount_each-Held :
      (all addons : List Bytes) (s : Server T W)
      → AddsHeld eng held all
      → ((a : Bytes) → contains a addons ≡ true → contains a all ≡ true)
      → Held eng held s.manager.mounted_addons s.search_paths
      → let after = (mount_each eng steam addons s).1 in
        Held eng held after.manager.mounted_addons after.search_paths
  unfolding mount_each
  mount_each-Held all [] s law inside h = h
  mount_each-Held all (a ∷ addons) s law inside h =
      mount_each-Held all addons (mount_addon eng steam a false s).1 law
        (λ b k. inside b (contains_later b a addons k))
        (mount_addon-Held a all false s law (inside a (contains_first a addons)) h)

  reloaded_same :
      (reload : Bool) (x : Bool × Server T W)
      → mounted_paths (if x.0 && reload then reload_map eng steam x.1 else x.1) ≡ mounted_paths x.1
  unfolding reload_map
  reloaded_same reload x = ground arith

  -- `RefreshAddons` keeps the addons that are mounted held by the search paths: where
  -- `RemoveSearchPath` succeeds exactly for a path that is held and leaves the others, a path that
  -- is added for an extra addon is held by its name with `_dir` and removes none, and the mounted
  -- addons are held before, with paths that differ, the addons that are mounted behind it are held,
  -- none of them the empty string or twice. `FindAndFastRemove` takes an addon out of a list without
  -- repeats.
  pub refresh_addons-Held :
      (reload : Bool) (s : Server T W)
      → FastRemoves eng
      → RemovesHeld eng held
      → AddsHeld eng held s.manager.extra_addons
      → Separate eng s.manager.mounted_addons
      → Held eng held s.manager.mounted_addons s.search_paths
      → let after = refresh_addons eng steam reload s in
        Held eng held after.manager.mounted_addons after.search_paths
  unfolding refresh_addons
  refresh_addons-Held reload s f r law sep h = go steam.has_ugc
    where
      cleared : Server T W
      cleared = unmount_all eng steam s

      empty : cleared.manager ≡ record s.manager { mounted_addons = [] }
      empty = unmount_all_empties eng steam held s f r sep h

      mounted : Bool × Server T W
      mounted = mount_each eng steam cleared.manager.extra_addons cleared

      ready : Held eng held mounted.1.manager.mounted_addons mounted.1.search_paths
      ready =
          mount_each-Held cleared.manager.extra_addons cleared.manager.extra_addons cleared
            (subst (λ (m : Manager T). AddsHeld eng held m.extra_addons) (sym empty) law) (λ a k. k)
            (subst (λ (m : Manager T). Held eng held m.mounted_addons cleared.search_paths)
              (sym empty) (nil-Held eng held cleared.search_paths))

      go :
          (b : Bool)
          → let after =
              if not b
              then s
              else if mounted.0 && reload
              then reload_map eng steam mounted.1
              else mounted.1 in
            Held eng held after.manager.mounted_addons after.search_paths
      go false = h
      go true = subst (IsHeld eng held) (sym (reloaded_same reload mounted)) ready
