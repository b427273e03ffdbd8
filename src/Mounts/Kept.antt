-- ===== src/Mounts/Kept.antt =====
-- What every change of the server's addons keeps: the download queue stays in order, and only the
-- operations on the list of extra addons change it.
use multi_addon_rss.Addons.{contains, is_empty, string_to_vector}
use multi_addon_rss.Base.{
  Bool, Bool-cases, Bytes, List, Option, [], arith, false, get_elem?, if◌then◌else◌, inl, inr,
  length, none, not, refl, some, subst, suc, sym, true, zero, ℕ, ◌&&◌, ◌||◌, ◌∙◌, ◌∷◌, ◌≡◌,
}
use multi_addon_rss.Clients.{Manager}
use multi_addon_rss.Downloads.{Downloads, Steam, download_addon}
use multi_addon_rss.Downloads.Queue.{IsQueued, download_addon-IsQueued}
use multi_addon_rss.Mounts.{
  Engine, Server, download, mount_addon, mount_each, mount_files, refresh_addons, reload_map,
  unmount_addon, unmount_all, unmount_at, unmount_below,
}

-- A property that mounting, unmounting and a reload of the map keep.
module _ {T W : Type 0} (eng : Engine W) (steam : Steam) (P : Server T W → Type 0)
    (mounted : (a : Bytes) (t : Bool) (s : Server T W) → P s → P (mount_addon eng steam a t s).1)
    (unmounted : (a : Bytes) (s : Server T W) → P s → P (unmount_addon eng steam a s).1)
    (reloaded : (s : Server T W) → P s → P (reload_map eng steam s)) where
  unmount_below_kept : (n : ℕ) (s : Server T W) → P s → P (unmount_below eng steam n s)
  unfolding unmount_below
  unmount_below_kept zero s p = p
  unmount_below_kept (suc n) s p =
      unmount_below_kept n (unmount_at eng steam (get_elem? s.manager.mounted_addons n) s)
        (at (get_elem? s.manager.mounted_addons n))
    where
      at : (o : Option Bytes) → P (unmount_at eng steam o s)
      at none = p
      at (some a) = unmounted a s p

  unmount_all_kept : (s : Server T W) → P s → P (unmount_all eng steam s)
  unfolding unmount_all
  unmount_all_kept s p = unmount_below_kept (length s.manager.mounted_addons) s p

  mount_each_kept :
      (addons : List Bytes) (s : Server T W) → P s → P (mount_each eng steam addons s).1
  unfolding mount_each
  mount_each_kept [] s p = p
  mount_each_kept (a ∷ addons) s p =
      mount_each_kept addons (mount_addon eng steam a false s).1 (mounted a false s p)

  reloaded_kept : (b : Bool) (s : Server T W) → P s → P (if b then reload_map eng steam s else s)
  reloaded_kept true s p = reloaded s p
  reloaded_kept false s p = p

  refresh_addons_kept :
      (reload : Bool) (s : Server T W) → P s → P (refresh_addons eng steam reload s)
  unfolding refresh_addons
  refresh_addons_kept reload s p =
      let cleared = unmount_all eng steam s in
      let mounted = mount_each eng steam cleared.manager.extra_addons cleared in
      elim (Bool-cases (not steam.has_ugc)) [
        | inl e ↦ rw e p
        | inr e ↦ rw e (
            reloaded_kept (mounted.0 && reload) mounted.1
              (mount_each_kept cleared.manager.extra_addons cleared (unmount_all_kept s p)))
      ]

fetched-IsQueued :
    (steam : Steam) (b : Bool) (important : Bool) (a : Bytes) (d : Downloads)
    → IsQueued d
    → IsQueued (if b then (download_addon steam d a important true).1 else d)
fetched-IsQueued steam true important a d v = download_addon-IsQueued steam d a important true v
fetched-IsQueued steam false important a d v = v

-- What mounting does not change: the lists of the manager but that of the mounted addons, the
-- workshop map, and the convar.
abbrev pub unmounted : {T W : Type 0} → Server T W → Manager T × Bytes
unmounted s = (record s.manager { mounted_addons = [] }, s.extra_addons_convar)

module _ {T W : Type 0} (eng : Engine W) (steam : Steam) where
  -- `MountAddon` fetches an addon that is missing, and one that it mounts where the convar asks.
  abbrev fetches : Bytes → Server T W → Bool
  fetches a s =
      not (is_empty a)
      && (not (contains a (string_to_vector s.manager.current_workshop_map))
          && (not (steam.is_legacy (steam.to_uint64 a))
              && (not (steam.is_installed (steam.to_uint64 a)) || eng.mount_download)))

  mount_addon_downloads :
      (a : Bytes) (t : Bool) (s : Server T W)
      → (mount_addon eng steam a t s).1.downloads ≡ (
          if fetches a s
          then (download_addon steam s.downloads a
              (not (steam.is_installed (steam.to_uint64 a)))
              true).1
          else s.downloads)
  unfolding mount_addon mount_files download
  mount_addon_downloads a t s = ground arith

  unmount_addon_downloads :
      (a : Bytes) (s : Server T W) → (unmount_addon eng steam a s).1.downloads ≡ s.downloads
  unfolding unmount_addon
  unmount_addon_downloads a s = ground arith

  reload_map_downloads : (s : Server T W) → (reload_map eng steam s).downloads ≡ s.downloads
  unfolding reload_map
  reload_map_downloads s = refl

  -- x
  pub refresh_addons-IsQueued :
      (reload : Bool) (s : Server T W)
      → IsQueued s.downloads
      → IsQueued (refresh_addons eng steam reload s).downloads
  refresh_addons-IsQueued =
      refresh_addons_kept eng steam (λ s. IsQueued s.downloads)
        (λ a t s v.
          subst IsQueued (sym (mount_addon_downloads a t s))
            (fetched-IsQueued steam (fetches a s) _ a s.downloads v))
        (λ a s v. subst IsQueued (sym (unmount_addon_downloads a s)) v)
        (λ s v. subst IsQueued (sym (reload_map_downloads s)) v)

  pub unmount_all-IsQueued :
      (s : Server T W) → IsQueued s.downloads → IsQueued (unmount_all eng steam s).downloads
  unmount_all-IsQueued =
      unmount_all_kept eng steam (λ s. IsQueued s.downloads)
        (λ a t s v.
          subst IsQueued (sym (mount_addon_downloads a t s))
            (fetched-IsQueued steam (fetches a s) _ a s.downloads v))
        (λ a s v. subst IsQueued (sym (unmount_addon_downloads a s)) v)
        (λ s v. subst IsQueued (sym (reload_map_downloads s)) v)

  unmounted-mount_addon :
      (a : Bytes) (t : Bool) (s : Server T W)
      → unmounted (mount_addon eng steam a t s).1 ≡ unmounted s
  unfolding mount_addon mount_files download
  unmounted-mount_addon a t s = ground arith

  unmounted-unmount_addon :
      (a : Bytes) (s : Server T W) → unmounted (unmount_addon eng steam a s).1 ≡ unmounted s
  unfolding unmount_addon
  unmounted-unmount_addon a s = ground arith

  unmounted-reload_map : (s : Server T W) → unmounted (reload_map eng steam s) ≡ unmounted s
  unfolding reload_map
  unmounted-reload_map s = refl

  pub unmounted-refresh_addons :
      (reload : Bool) (s : Server T W) → unmounted (refresh_addons eng steam reload s) ≡ unmounted s
  unmounted-refresh_addons reload s =
      refresh_addons_kept eng steam (λ t. unmounted t ≡ unmounted s)
        (λ a t u e. unmounted-mount_addon a t u ∙ e) (λ a u e. unmounted-unmount_addon a u ∙ e)
        (λ u e. unmounted-reload_map u ∙ e) reload s refl

  pub unmounted-unmount_all : (s : Server T W) → unmounted (unmount_all eng steam s) ≡ unmounted s
  unmounted-unmount_all s =
      unmount_all_kept eng steam (λ t. unmounted t ≡ unmounted s)
        (λ a t u e. unmounted-mount_addon a t u ∙ e) (λ a u e. unmounted-unmount_addon a u ∙ e)
        (λ u e. unmounted-reload_map u ∙ e) s refl
