-- ===== src/Mounts/Refresh.antt =====
-- What `RefreshAddons` and `ClearAddons` leave mounted, and when the map is reloaded.
use multi_addon_rss.Addons.{contains, is_empty, string_to_vector}
use multi_addon_rss.Base.{
  Bool, Bool-cases, Bytes, List, [], ap, append-nil, append_assoc, arith, false, if◌then◌else◌, inl,
  inr, length, map, not, refl, subst, suc, true, ℕ, ◌&&◌, ◌++◌, ◌==◌, ◌||◌, ◌∙◌, ◌∷◌, ◌≡◌, ◌≤◌,
}
use multi_addon_rss.Clients.{Manager}
use multi_addon_rss.Downloads.{Steam}
use multi_addon_rss.Mounts.{
  Engine, Server, build_addon_path, download, mount_addon, mount_each, mount_files, refresh_addons,
  reload_map, unmount_all,
}
use multi_addon_rss.Mounts.Cleared.{
  FastRemoves, Held, RemovesHeld, Separate, unmount_all_empties, unmount_commands,
}

module _ {W : Type 0} (eng : Engine W) (steam : Steam) where
  -- Whether `MountAddon` can mount the addon, the workshop map being `map`.
  abbrev pub is_mountable : Bytes → Bytes → Bool
  is_mountable map a =
      not (is_empty a)
      && (not (contains a (string_to_vector map))
          && (not (steam.is_legacy (steam.to_uint64 a))
              && (steam.is_installed (steam.to_uint64 a)
                  && (eng.path_exists (build_addon_path eng a false)
                      || eng.path_exists (build_addon_path eng a true)))))

  -- What a list adds to what is mounted: what can be mounted, in its order, at its first place.
  abbrev pub newly_mounted : Bytes → List Bytes → List Bytes → List Bytes
  newly_mounted map mounted [] = []
  newly_mounted map mounted (a ∷ addons) =
      let more = newly_mounted map (mounted ++ a ∷ []) addons in
      let others = newly_mounted map mounted addons in
      if is_mountable map a && not (contains a mounted) then a ∷ more else others

  mounts_at_most :
      (addons : List Bytes) (map : Bytes) (mounted : List Bytes)
      → length (newly_mounted map mounted addons) ≤ length addons
  mounts_at_most [] map mounted = omega arith
  mounts_at_most (a ∷ addons) map mounted =
      ground
        (arith, mounts_at_most addons map (mounted ++ a ∷ []), mounts_at_most addons map mounted)

module _ {T W : Type 0} (eng : Engine W) (steam : Steam) where
  mount_addon_mounts : Bytes → Server T W → Bool
  mount_addon_mounts a s =
      is_mountable eng steam s.manager.current_workshop_map a
      && not (contains a s.manager.mounted_addons)

  mount_addon_result :
      (a : Bytes) (t : Bool) (s : Server T W)
      → (mount_addon eng steam a t s).0 ≡ mount_addon_mounts a s
  unfolding mount_addon mount_files download mount_addon_mounts
  mount_addon_result a t s = ground arith

  mount_addon_manager :
      (a : Bytes) (t : Bool) (s : Server T W)
      → (mount_addon eng steam a t s).1.manager ≡ (
          if mount_addon_mounts a s
          then record s.manager { mounted_addons = s.manager.mounted_addons ++ a ∷ [] }
          else s.manager)
  unfolding mount_addon mount_files download mount_addon_mounts
  mount_addon_manager a t s = ground arith

  mount_addon_commands :
      (a : Bytes) (t : Bool) (s : Server T W)
      → (mount_addon eng steam a t s).1.commands ≡ s.commands
  unfolding mount_addon mount_files download
  mount_addon_commands a t s = ground arith

  abbrev settled : Manager T → List Bytes → Manager T
  settled m addons = record m {
    mounted_addons =
        m.mounted_addons ++ newly_mounted eng steam m.current_workshop_map m.mounted_addons addons;
  }

  settled_cons :
      (a : Bytes) (addons : List Bytes) (s : Server T W)
      → settled (mount_addon eng steam a false s).1.manager addons ≡ settled s.manager (a ∷ addons)
  unfolding mount_addon_mounts
  settled_cons a addons s =
      ap (λ (m : Manager T). settled m addons) (mount_addon_manager a false s)
      ∙ elim (Bool-cases (mount_addon_mounts a s)) [
        | inl e ↦ rw (e, append_assoc s.manager.mounted_addons (a ∷ [])) refl
        | inr e ↦ rw e refl
      ]

  mount_each_manager :
      (addons : List Bytes) (s : Server T W)
      → (mount_each eng steam addons s).1.manager ≡ settled s.manager addons
  unfolding mount_each
  mount_each_manager [] s = rw append-nil refl
  mount_each_manager (a ∷ addons) s =
      mount_each_manager addons (mount_addon eng steam a false s).1 ∙ settled_cons a addons s

  -- How many of the list are mounted.
  abbrev mounts : Manager T → List Bytes → ℕ
  mounts m addons = length (newly_mounted eng steam m.current_workshop_map m.mounted_addons addons)

  mount_each_all_step :
      (a : Bytes) (addons : List Bytes) (s : Server T W)
      → mounts s.manager addons ≤ length addons
      → (rest : Bool)
      → rest ≡ (mounts (mount_addon eng steam a false s).1.manager addons == length addons)
      → ((mount_addon eng steam a false s).0 && rest)
        ≡ (mounts s.manager (a ∷ addons) == suc (length addons))
  unfolding mount_addon_mounts
  mount_each_all_step a addons s le rest h =
      let h' =
        h
        ∙ ap (λ (m : Manager T). mounts m addons == length addons)
            (mount_addon_manager a false s) in
      let more = record s.manager { mounted_addons = s.manager.mounted_addons ++ a ∷ [] } in
      let at : (c : Bool)
          → mount_addon_mounts a s ≡ c
          → rest ≡ (mounts (if c then more else s.manager) addons == length addons) =
        λ c e.
          subst (λ c. rest ≡ (mounts (if c then more else s.manager) addons == length addons)) e
            h' in
      elim (Bool-cases (mount_addon_mounts a s)) [
        | inl e ↦ ground (arith, at true e, mount_addon_result a false s)
        | inr e ↦ ground (arith, at false e, mount_addon_result a false s)
      ]

  mount_each_all :
      (addons : List Bytes) (s : Server T W)
      → (mount_each eng steam addons s).0 ≡ (mounts s.manager addons == length addons)
  unfolding mount_each mount_addon_mounts
  mount_each_all [] s = ground arith
  mount_each_all (a ∷ addons) s =
      mount_each_all_step a addons s
        (mounts_at_most eng steam addons s.manager.current_workshop_map s.manager.mounted_addons)
        (mount_each eng steam addons (mount_addon eng steam a false s).1).0
        (mount_each_all addons (mount_addon eng steam a false s).1)

  mount_each_commands :
      (addons : List Bytes) (s : Server T W)
      → (mount_each eng steam addons s).1.commands ≡ s.commands
  unfolding mount_each
  mount_each_commands [] s = refl
  mount_each_commands (a ∷ addons) s = mount_each_commands addons _ ∙ mount_addon_commands a false s

  reload_map_commands :
      (s t : Server T W)
      → s.manager.current_workshop_map ≡ t.manager.current_workshop_map
      → s.commands ≡ t.commands
      → (reload_map eng steam s).commands ≡ (reload_map eng steam t).commands
  unfolding reload_map
  reload_map_commands s t h k = rw (h, k) refl

  reloaded : Bool → Bool × Server T W → Server T W
  reloaded reload x = if x.0 && reload then reload_map eng steam x.1 else x.1

  reloaded_manager :
      (reload : Bool) (x : Bool × Server T W) → (reloaded reload x).manager ≡ x.1.manager
  unfolding reloaded reload_map
  reloaded_manager reload x = ground arith

  reloaded_commands :
      (reload : Bool) (x : Bool × Server T W) (s : Server T W)
      → x.1.manager.current_workshop_map ≡ s.manager.current_workshop_map
      → x.1.commands ≡ s.commands
      → (reloaded reload x).commands
        ≡ (if reload && x.0 then (reload_map eng steam s).commands else s.commands)
  unfolding reloaded
  reloaded_commands reload x s h k = ground (arith, reload_map_commands x.1 s h k)

  refresh_addons_lem :
      (reload : Bool) (s : Server T W)
      → steam.has_ugc ≡ true
      → refresh_addons eng steam reload s
        ≡ reloaded reload (
            mount_each eng steam
              (unmount_all eng steam s).manager.extra_addons
              (unmount_all eng steam s))
  unfolding refresh_addons reloaded
  refresh_addons_lem reload s g = rw g refl

  -- With a Steam connection, where `RemoveSearchPath` succeeds exactly for a path that is held and
  -- leaves the others, the paths of the addons that are mounted are held by the names with `_dir`
  -- and differ, none of these addons is the empty string or stands twice, and `FindAndFastRemove`
  -- takes an addon out of a list without repeats, `RefreshAddons` leaves mounted, in the order of
  -- the extra addons and once each, those that can be mounted, changes nothing else of the manager,
  -- and has the map reloaded exactly if it is asked to and every extra addon was mounted.
  pub refresh_addons_mounts :
      (held : Bytes → W → Bool) (reload : Bool) (s : Server T W)
      → steam.has_ugc ≡ true
      → FastRemoves eng
      → RemovesHeld eng held
      → Separate eng s.manager.mounted_addons
      → Held eng held s.manager.mounted_addons s.search_paths
      → ((refresh_addons eng steam reload s).manager ≡ record s.manager {
        mounted_addons =
            newly_mounted eng steam s.manager.current_workshop_map [] s.manager.extra_addons;
      })
        × ((refresh_addons eng steam reload s).commands ≡ (
            if reload
              && (length (
                    newly_mounted eng steam s.manager.current_workshop_map []
                      s.manager.extra_addons)
                  == length s.manager.extra_addons)
            then (reload_map eng steam s).commands
            else s.commands))
  unfolding unmount_all
  refresh_addons_mounts held reload s g f r sep h =
      let cleared = unmount_all eng steam s in
      let empty = unmount_all_empties eng steam held s f r sep h in
      let addons = cleared.manager.extra_addons in
      let mounted = mount_each eng steam addons cleared in
      let all =
        mount_each_manager addons cleared
        ∙ ap (λ (m : Manager T). settled m m.extra_addons) empty in
      let ok =
        mount_each_all addons cleared
        ∙ ap (λ (m : Manager T). mounts m m.extra_addons == length m.extra_addons) empty in
      let commands =
        mount_each_commands addons cleared
        ∙ unmount_commands eng steam (length s.manager.mounted_addons) s in
      (
        ap (λ (t : Server T W). t.manager) (refresh_addons_lem reload s g)
            ∙ reloaded_manager reload mounted
            ∙ all,
        ap (λ (t : Server T W). t.commands) (refresh_addons_lem reload s g)
            ∙ reloaded_commands reload mounted s
                (ap (λ (m : Manager T). m.current_workshop_map) all) commands
            ∙ ap (λ b. if reload && b then (reload_map eng steam s).commands else s.commands) ok,
      )
