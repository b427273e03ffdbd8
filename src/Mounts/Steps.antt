-- ===== src/Mounts/Steps.antt =====
-- The server's addons over a run: the operations as steps, and what every reachable state keeps.
use multi_addon_rss.Addons.{contains, find_and_remove, is_empty}
use multi_addon_rss.Addons.Split.{has_comma}
use multi_addon_rss.Base.{
  Bool, Bytes, List, [], ap, arith, false, if◌then◌else◌, not, subst, sym, true, ℕ, ◌++◌, ◌∷◌, ◌≡◌,
}
use multi_addon_rss.Downloads.{Steam, is_listed_id, on_addon_downloaded}
use multi_addon_rss.Downloads.Queue.{
  IsQueued, download_addon-IsQueued, finish_head-IsQueued, finish_unlisted,
}
use multi_addon_rss.Mounts.{
  Engine, Server, add_addon, clear_addons, download, finish_download,
  hook_game_server_steam_api_activated, hook_startup_server, on_extra_addons_changed,
  refresh_addons, reload_map, remove_addon, set_extra_addons,
}
use multi_addon_rss.Mounts.Kept.{
  refresh_addons-IsQueued, unmounted-refresh_addons, unmount_all-IsQueued, unmounted,
}
use multi_addon_rss.Mounts.Lists.{
  ConvarAgrees, add_addon-ConvarAgrees, changed-ConvarAgrees, clear_addons-ConvarAgrees,
  of_unmounted, remove_addon-ConvarAgrees,
}

-- One operation of the server: a change of the list by a command or another plugin, a change of the
-- convar, a refresh that the game starts, or a download that finishes. Steam finishes the downloads
-- of the queue in their order, and others at any time.
module _ {T W : Type 0} (eng : Engine W) (steam : Steam) (drop_empty_paths : W → W) where
  pub data Step : Server T W → Server T W → Type 0 where
    adds :
        {s : Server T W} (a : Bytes) (refresh : Bool)
        → (is_empty a ≡ false) × (has_comma a ≡ false)
        → Step s (add_addon eng steam a refresh s).1
    removes :
        {s : Server T W} (a : Bytes) (refresh : Bool)
        → Step s (remove_addon eng steam a refresh s).1
    clears : {s : Server T W} → Step s (clear_addons eng steam s)
    changes : {s : Server T W} (value : Bytes) → Step s (on_extra_addons_changed eng steam value s)
    activates : {s : Server T W} → Step s (hook_game_server_steam_api_activated eng steam s)
    starts : {s : Server T W} → Step s (hook_startup_server eng steam drop_empty_paths s)
    requests :
        {s : Server T W} (a : Bytes) (important force : Bool)
        → Step s (download eng steam a important force s)
    finishes :
        {s : Server T W} (id : ℕ) (rest : List ℕ)
        → s.downloads.queue ≡ id ∷ rest
        → Step s (finish_download eng steam id s)
    ignores :
        {s : Server T W} (id : ℕ)
        → is_listed_id id s.downloads.queue ≡ false
        → Step s (finish_download eng steam id s)

  pub data Reaches (s : Server T W) : Server T W → Type 0 where
    stays : Reaches s s
    steps : {t u : Server T W} → Reaches s t → Step t u → Reaches s u

-- The convar agrees with the list, and the download queue is in order.
abbrev pub IsSound : {T W : Type 0} → Server T W → Type 0
IsSound s = ConvarAgrees s × IsQueued s.downloads

module _ {T W : Type 0} (eng : Engine W) (steam : Steam) where
  IsQueued-if :
      (b : Bool) (x y : Bool × Server T W)
      → IsQueued x.1.downloads
      → IsQueued y.1.downloads
      → IsQueued (if b then x else y).1.downloads
  IsQueued-if true x y p q = p
  IsQueued-if false x y p q = q

  refreshed-IsQueued :
      (b reload : Bool) (s : Server T W)
      → IsQueued s.downloads
      → IsQueued (if b then refresh_addons eng steam reload s else s).downloads
  refreshed-IsQueued true reload s q = refresh_addons-IsQueued eng steam reload s q
  refreshed-IsQueued false reload s q = q

  add_addon-IsQueued :
      (a : Bytes) (refresh : Bool) (s : Server T W)
      → IsQueued s.downloads
      → IsQueued (add_addon eng steam a refresh s).1.downloads
  unfolding add_addon
  add_addon-IsQueued a refresh s q =
      let s' = set_extra_addons eng steam (s.manager.extra_addons ++ a ∷ []) s in
      IsQueued-if (contains a s.manager.extra_addons) (false, s)
        (true, if refresh then refresh_addons eng steam false s' else s') q
        (refreshed-IsQueued refresh false s' q)

  remove_addon-IsQueued :
      (a : Bytes) (refresh : Bool) (s : Server T W)
      → IsQueued s.downloads
      → IsQueued (remove_addon eng steam a refresh s).1.downloads
  unfolding remove_addon
  remove_addon-IsQueued a refresh s q =
      let s' = set_extra_addons eng steam (find_and_remove a s.manager.extra_addons) s in
      IsQueued-if (not (contains a s.manager.extra_addons)) (false, s)
        (true, if refresh then refresh_addons eng steam false s' else s') q
        (refreshed-IsQueued refresh false s' q)

  finish_download_lem :
      (id : ℕ) (s : Server T W)
      → ((finish_download eng steam id s).downloads ≡ (on_addon_downloaded s.downloads id).0)
        × (unmounted (finish_download eng steam id s) ≡ unmounted s)
  unfolding finish_download reload_map
  finish_download_lem id s = ground arith

  finish_download-IsSound :
      (id : ℕ) (s : Server T W)
      → IsQueued (on_addon_downloaded s.downloads id).0
      → ConvarAgrees s
      → IsSound (finish_download eng steam id s)
  finish_download-IsSound id s q c =
      let (e, u) = finish_download_lem id s in
      (of_unmounted eng steam (finish_download eng steam id s) s u c, subst IsQueued (sym e) q)

  refresh_addons-IsSound :
      (reload : Bool) (s : Server T W) → IsSound s → IsSound (refresh_addons eng steam reload s)
  refresh_addons-IsSound reload s (c, q) = (
    of_unmounted eng steam (refresh_addons eng steam reload s) s
        (unmounted-refresh_addons eng steam reload s) c,
    refresh_addons-IsQueued eng steam reload s q,
  )

  hook_activated-IsSound :
      (s : Server T W) → IsSound s → IsSound (hook_game_server_steam_api_activated eng steam s)
  unfolding hook_game_server_steam_api_activated
  hook_activated-IsSound s h = go (not eng.is_dedicated)
    where
      go : (b : Bool) → IsSound (if b then s else refresh_addons eng steam true s)
      go true = h
      go false = refresh_addons-IsSound true s h

  step-IsSound :
      (drop_empty_paths : W → W) (s t : Server T W)
      → Step eng steam drop_empty_paths s t
      → IsSound s
      → IsSound t
  unfolding clear_addons on_extra_addons_changed hook_startup_server download
  step-IsSound drop s _ (adds a refresh k) h =
      (add_addon-ConvarAgrees eng steam a refresh s k h.0, add_addon-IsQueued a refresh s h.1)
  step-IsSound drop s _ (removes a refresh) h =
      (remove_addon-ConvarAgrees eng steam a refresh s h.0, remove_addon-IsQueued a refresh s h.1)
  step-IsSound drop s _ clears h = (
    clear_addons-ConvarAgrees eng steam s,
    unmount_all-IsQueued eng steam (set_extra_addons eng steam [] s) h.1,
  )
  step-IsSound drop s _ (changes value) h =
      (changed-ConvarAgrees eng steam value s, refresh_addons-IsQueued eng steam false _ h.1)
  step-IsSound drop s _ activates h = hook_activated-IsSound s h
  step-IsSound drop s _ starts h = refresh_addons-IsSound false _ h
  step-IsSound drop s _ (requests a important force) h =
      (h.0, download_addon-IsQueued steam s.downloads a important force h.1)
  step-IsSound drop s _ (finishes id rest e) h =
      let d = s.downloads in
      let queued : d ≡ record d { queue = id ∷ rest } = ap (λ q. record d { queue = q }) e in
      let after = finish_head-IsQueued id rest d.important (subst IsQueued queued h.1) in
      finish_download-IsSound id s
        (subst (λ d. IsQueued (on_addon_downloaded d id).0) (sym queued) after) h.0
  step-IsSound drop s _ (ignores id e) h =
      finish_download-IsSound id s (subst IsQueued (sym (finish_unlisted id s.downloads e)) h.1) h.0

  -- In every state that operations of the server reach from one where it holds, the convar
  -- `mm_extra_addons` splits to the extra addons, all ids that are not empty and without a comma, no
  -- download stands twice in the queue or among the important ones, and the important ones are
  -- queued. The ids that are added are not empty and have no comma, and the downloads of the queue
  -- finish in its order.
  pub Reaches-IsSound :
      (drop_empty_paths : W → W) (s t : Server T W)
      → Reaches eng steam drop_empty_paths s t
      → IsSound s
      → IsSound t
  Reaches-IsSound drop s t stays h = h
  Reaches-IsSound drop s t (steps r k) h = step-IsSound drop _ t k (Reaches-IsSound drop s _ r h)
