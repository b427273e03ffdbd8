-- ===== src/Mounts/Lists.antt =====
-- The list of the extra addons: it agrees with its convar, and what it gains reaches the clients.
use multi_addon_rss.Addons.{contains, find_and_remove, is_empty, string_to_vector, vector_to_string}
use multi_addon_rss.Addons.Lists.{contains-append, find_and_remove-snoc}
use multi_addon_rss.Addons.Split.{
  AllIds, find_and_remove-AllIds, has_comma, string_to_vector-AllIds,
  string_to_vector-vector_to_string,
}
use multi_addon_rss.Base.{
  Bool, Bool-cases, Bytes, List, [], ap, arith, equal, equal_iff, equal_refl, false, if◌then◌else◌,
  inl, inr, map, not, refl, subst, sym, true, ℕ, ◌++◌, ◌∙◌, ◌∷◌, ◌≡◌,
}
use multi_addon_rss.Clients.{
  Floats, Manager, get_client_addons, is_client_rss_assets_enabled, is_skipped, skip_rss_assets,
}
use multi_addon_rss.Clients.Needed.{contains-get_client_addons, first_of_map}
use multi_addon_rss.Downloads.{Steam}
use multi_addon_rss.Mounts.{
  Engine, Server, add_addon, clear_addons, on_extra_addons_changed, refresh_addons, remove_addon,
  set_extra_addons, unmount_all,
}
use multi_addon_rss.Mounts.Cleared.{FastRemoves, Held, RemovesHeld, Separate}
use multi_addon_rss.Mounts.Kept.{unmounted, unmounted-refresh_addons, unmounted-unmount_all}
use multi_addon_rss.Mounts.Refresh.{is_mountable, newly_mounted, refresh_addons_mounts}

-- The convar `mm_extra_addons` reads as the list of the extra addons, which holds ids.
abbrev pub ConvarAgrees : {T W : Type 0} → Server T W → Type 0
ConvarAgrees s =
    (string_to_vector s.extra_addons_convar ≡ s.manager.extra_addons)
    × AllIds s.manager.extra_addons

AllIds-append : (xs ys : List Bytes) → AllIds xs → AllIds ys → AllIds (xs ++ ys)
AllIds-append [] ys p q = q
AllIds-append (x ∷ xs) ys p q = (p.0, AllIds-append xs ys p.1 q)

contains-newly_mounted :
    {W : Type 0} (eng : Engine W) (steam : Steam) (map : Bytes) (a : Bytes)
    (addons mounted : List Bytes)
    → contains a mounted ≡ false
    → is_mountable eng steam map a ≡ true
    → contains a (newly_mounted eng steam map mounted addons) ≡ contains a addons
unfolding contains
contains-newly_mounted eng steam map a [] mounted n h = refl
contains-newly_mounted eng steam map a (x ∷ addons) mounted n h = elim (Bool-cases (equal x a)) [
  | inl e ↦
      subst
        (λ z.
          contains a (newly_mounted eng steam map mounted (z ∷ addons)) ≡ contains a (z ∷ addons))
        (sym ((equal_iff x a).0 e)) (ground (arith, equal_refl a))
  | inr e ↦ ground (
    arith,
    contains-newly_mounted eng steam map a addons mounted n h,
    contains-newly_mounted eng steam map a addons (mounted ++ x ∷ []),
    contains-append a mounted (x ∷ []),
  )
]

first_kept :
    (skip : Bool) (map a : Bytes)
    → contains a (first_of_map map) ≡ true
    → is_skipped skip map a ≡ false
unfolding contains is_skipped
first_kept skip map a h = elim (Bool-cases (equal map a)) [
  | inl e ↦
      subst (λ z. is_skipped skip map z ≡ false) ((equal_iff map a).0 e)
        (ground (arith, equal_refl map, h))
  | inr e ↦ absurd (ground (arith, h, e))
]

agrees-if :
    {T W : Type 0} (b : Bool) (x y : Bool × Server T W)
    → (b ≡ true → ConvarAgrees x.1)
    → (b ≡ false → ConvarAgrees y.1)
    → ConvarAgrees (if b then x else y).1
agrees-if true x y p q = p refl
agrees-if false x y p q = q refl

module _ {T W : Type 0} (eng : Engine W) (steam : Steam) where
  set_extra_addons-ConvarAgrees :
      (addons : List Bytes) (s : Server T W)
      → AllIds addons
      → ConvarAgrees (set_extra_addons eng steam addons s)
  set_extra_addons-ConvarAgrees addons s h = (string_to_vector-vector_to_string addons h, h)

  pub of_unmounted :
      (s t : Server T W) → unmounted s ≡ unmounted t → ConvarAgrees t → ConvarAgrees s
  of_unmounted s t e h =
      let list = ap (λ (p : Manager T × Bytes). p.0.extra_addons) e in
      let convar = ap (λ (p : Manager T × Bytes). p.1) e in
      (ap string_to_vector convar ∙ h.0 ∙ sym list, subst AllIds (sym list) h.1)

  refreshed-ConvarAgrees :
      (b : Bool) (s : Server T W)
      → ConvarAgrees s
      → ConvarAgrees (if b then refresh_addons eng steam false s else s)
  refreshed-ConvarAgrees true s h =
      of_unmounted (refresh_addons eng steam false s) s (unmounted-refresh_addons eng steam false s)
        h
  refreshed-ConvarAgrees false s h = h

  pub add_addon-ConvarAgrees :
      (a : Bytes) (refresh : Bool) (s : Server T W)
      → (is_empty a ≡ false) × (has_comma a ≡ false)
      → ConvarAgrees s
      → ConvarAgrees (add_addon eng steam a refresh s).1
  unfolding add_addon
  add_addon-ConvarAgrees a refresh s k h =
      let s' = set_extra_addons eng steam (s.manager.extra_addons ++ a ∷ []) s in
      let agrees =
        set_extra_addons-ConvarAgrees (s.manager.extra_addons ++ a ∷ []) s
          (AllIds-append s.manager.extra_addons (a ∷ []) h.1 (k, tt)) in
      agrees-if (contains a s.manager.extra_addons) _ _ (λ e. h)
        (λ e. refreshed-ConvarAgrees refresh s' agrees)

  pub remove_addon-ConvarAgrees :
      (a : Bytes) (refresh : Bool) (s : Server T W)
      → ConvarAgrees s
      → ConvarAgrees (remove_addon eng steam a refresh s).1
  unfolding remove_addon
  remove_addon-ConvarAgrees a refresh s h =
      let left = find_and_remove a s.manager.extra_addons in
      let agrees =
        set_extra_addons-ConvarAgrees left s
          (find_and_remove-AllIds a s.manager.extra_addons h.1) in
      agrees-if (not (contains a s.manager.extra_addons)) _ _ (λ e. h)
        (λ e. refreshed-ConvarAgrees refresh (set_extra_addons eng steam left s) agrees)

  pub clear_addons-ConvarAgrees : (s : Server T W) → ConvarAgrees (clear_addons eng steam s)
  unfolding clear_addons
  clear_addons-ConvarAgrees s =
      of_unmounted (unmount_all eng steam (set_extra_addons eng steam [] s))
        (set_extra_addons eng steam [] s)
        (unmounted-unmount_all eng steam (set_extra_addons eng steam [] s))
        (set_extra_addons-ConvarAgrees [] s tt)

  pub changed-ConvarAgrees :
      (value : Bytes) (s : Server T W) → ConvarAgrees (on_extra_addons_changed eng steam value s)
  unfolding on_extra_addons_changed
  changed-ConvarAgrees value s =
      refreshed-ConvarAgrees true
        (record s {
          manager = record s.manager { extra_addons = string_to_vector value };
          extra_addons_convar = value;
        })
        (refl, string_to_vector-AllIds value)

  add_addon_new :
      (a : Bytes) (refresh : Bool) (s : Server T W)
      → contains a s.manager.extra_addons ≡ false
      → add_addon eng steam a refresh s ≡ (
        true,
        (let s' = set_extra_addons eng steam (s.manager.extra_addons ++ a ∷ []) s in
            if refresh then refresh_addons eng steam false s' else s'),
      )
  unfolding add_addon
  add_addon_new a refresh s h = rw h refl

  remove_addon_listed :
      (a : Bytes) (s : Server T W)
      → contains a s.manager.extra_addons ≡ true
      → remove_addon eng steam a false s
        ≡ (true, set_extra_addons eng steam (find_and_remove a s.manager.extra_addons) s)
  unfolding remove_addon
  remove_addon_listed a s h = rw h refl

  -- Without refreshes, `RemoveAddon` behind an `AddAddon` of an addon that was not in the list
  -- succeeds and restores the state of the server, where the convar was the join of the list.
  pub remove_addon-add_addon :
      (a : Bytes) (s : Server T W)
      → contains a s.manager.extra_addons ≡ false
      → s.extra_addons_convar ≡ vector_to_string s.manager.extra_addons
      → remove_addon eng steam a false (add_addon eng steam a false s).1 ≡ (true, s)
  unfolding contains
  remove_addon-add_addon a s h k =
      let addons = s.manager.extra_addons in
      let added = set_extra_addons eng steam (addons ++ a ∷ []) s in
      ap (λ (r : Bool × Server T W). remove_addon eng steam a false r.1) (add_addon_new a false s h)
      ∙ remove_addon_listed a added
          (contains-append a addons (a ∷ []) ∙ ground (arith, h, equal_refl a))
      ∙ ap (λ (xs : List Bytes). (true, set_extra_addons eng steam xs s))
          (find_and_remove-snoc a addons h)
      ∙ ap (λ (c : Bytes). (true, record s { extra_addons_convar = c })) (sym k)

  -- With a Steam connection, where `RemoveSearchPath` succeeds exactly for a path that is held and
  -- leaves the others, the paths of the addons that are mounted are held by the names with `_dir`
  -- and differ, none of these addons is the empty string or stands twice, and `FindAndFastRemove`
  -- takes an addon out of a list without repeats, an addon that can be mounted, was not among the
  -- extra addons, and is added by `AddAddon` with a refresh, is among the addons of a client, unless
  -- it is an RSS asset that the preference of the client leaves out.
  pub add_addon_listed :
      (fl : Floats T) (held : Bytes → W → Bool) (a : Bytes) (s : Server T W) (id : ℕ)
      (include : Bool)
      → steam.has_ugc ≡ true
      → FastRemoves eng
      → RemovesHeld eng held
      → Separate eng s.manager.mounted_addons
      → Held eng held s.manager.mounted_addons s.search_paths
      → contains a s.manager.extra_addons ≡ false
      → is_mountable eng steam s.manager.current_workshop_map a ≡ true
      → let after = (add_addon eng steam a true s).1.manager in
        contains a (get_client_addons fl after id include)
        ≡ not (is_skipped (skip_rss_assets s.manager id include) s.manager.current_workshop_map a)
  unfolding contains skip_rss_assets is_client_rss_assets_enabled
  add_addon_listed fl held a s id include g f r sep k n h =
      let addons = s.manager.extra_addons in
      let added = set_extra_addons eng steam (addons ++ a ∷ []) s in
      let map = s.manager.current_workshop_map in
      let mounted = newly_mounted eng steam map [] (addons ++ a ∷ []) in
      let m = record added.manager { mounted_addons = mounted } in
      let after : (add_addon eng steam a true s).1.manager ≡ m =
        ap (λ (r : Bool × Server T W). r.1.manager) (add_addon_new a true s n)
        ∙ (refresh_addons_mounts eng steam held false added g f r sep k).0 in
      let in_list : contains a (addons ++ a ∷ []) ≡ true =
        contains-append a addons (a ∷ []) ∙ ground (arith, n, equal_refl a) in
      let in_mounted : contains a mounted ≡ true =
        contains-newly_mounted eng steam map a (addons ++ a ∷ []) [] refl h ∙ in_list in
      ap (λ (m : Manager T). contains a (get_client_addons fl m id include)) after
      ∙ contains-get_client_addons fl m id include a
      ∙ ground (arith, in_mounted, first_kept (skip_rss_assets s.manager id include) map a)
