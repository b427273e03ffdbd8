-- ===== src/Plugin/Requests.antt =====
-- What a console command is asked to do, against what it does to the lists of addons.
use multi_addon_rss.Addons.{contains, find_and_remove}
use multi_addon_rss.Addons.Lists.{Distinct}
use multi_addon_rss.Base.{
  Bytes, List, Option, [], ap, arith, false, if◌then◌else◌, none, refl, some, subst, sym, true,
  ◌++◌, ◌∷◌, ◌≡◌,
}
use multi_addon_rss.ClientLists.{add_client_addon, remove_client_addon}
use multi_addon_rss.Clients.{Floats, Manager}
use multi_addon_rss.Downloads.{Downloads, Steam, download_addon}
use multi_addon_rss.Mounts.{Engine, Server, add_addon, download, remove_addon}
use multi_addon_rss.Plugin.Commands.{
  Command, mm_add_addon, mm_add_client_addon, mm_download_addon, mm_remove_addon,
  mm_remove_client_addon, mounted_state, mounted_state-run_command, on_argument, on_one_argument,
  run_command,
}
use multi_addon_rss.Plugin.Granted.{
  IsGranted, Request, added-IsGranted, asked, asks_for, asks_nothing, download_request, drops,
  extra_request, global_request, removed-IsGranted, removed_absent,
}

module _ {T W : Type 0} (fl : Floats T) (eng : Engine W) (steam : Steam) where
  abbrev extra : Server T W → List Bytes
  extra s = s.manager.extra_addons

  abbrev global : Server T W → List Bytes
  global s = s.manager.global_client_addons

  extra-add_addon :
      (a : Bytes) (s : Server T W)
      → extra (add_addon eng steam a false s).1
        ≡ (if contains a (extra s) then extra s else extra s ++ a ∷ [])
  unfolding add_addon
  extra-add_addon a s = ground arith

  extra-remove_addon :
      (a : Bytes) (s : Server T W)
      → extra (remove_addon eng steam a false s).1 ≡ find_and_remove a (extra s)
  unfolding remove_addon
  extra-remove_addon a s = ground (arith, removed_absent a (extra s))

  global-add_client_addon :
      (a : Bytes) (m : Manager T)
      → (add_client_addon fl false [] m a 0 false).manager.global_client_addons ≡ (
          if contains a m.global_client_addons
          then m.global_client_addons
          else m.global_client_addons ++ a ∷ [])
  unfolding add_client_addon
  global-add_client_addon a m = ground arith

  on_argument-IsGranted :
      (list : Server T W → List Bytes) (request : Bytes → Request) (args : List Bytes)
      (f : Bytes → Server T W → Server T W) (s : Server T W)
      → Distinct (list s)
      → ((a : Bytes) → IsGranted (request a) (list s) (list (f a s)))
      → IsGranted (asked request args) (list s) (list (on_argument args f s))
  unfolding on_argument
  on_argument-IsGranted list request [] f s d g = (d, λ x. refl)
  on_argument-IsGranted list request (name ∷ []) f s d g = (d, λ x. refl)
  on_argument-IsGranted list request (name ∷ a ∷ more) f s d g = g a

  kept-IsGranted : (xs ys : List Bytes) → Distinct xs → ys ≡ xs → IsGranted asks_nothing xs ys
  kept-IsGranted xs ys d e = (subst (λ xs. Distinct xs) (sym e) d, λ x. ap (contains x) e)

  on_argument_same :
      {A : Type 0} (part : Server T W → A) (args : List Bytes) (f : Bytes → Server T W → Server T W)
      (s : Server T W)
      → ((a : Bytes) → part (f a s) ≡ part s)
      → part (on_argument args f s) ≡ part s
  unfolding on_argument
  on_argument_same part [] f s k = refl
  on_argument_same part (name ∷ []) f s k = refl
  on_argument_same part (name ∷ a ∷ more) f s k = k a

  on_one_argument_same :
      {A : Type 0} (part : Server T W → A) (args : List Bytes) (f : Bytes → Server T W → Server T W)
      (s : Server T W)
      → ((a : Bytes) → part (f a s) ≡ part s)
      → part (on_one_argument args f s) ≡ part s
  unfolding on_one_argument
  on_one_argument_same part [] f s k = refl
  on_one_argument_same part (name ∷ []) f s k = refl
  on_one_argument_same part (name ∷ a ∷ []) f s k = k a
  on_one_argument_same part (name ∷ a ∷ b ∷ more) f s k = refl

  downloads-add_addon :
      (a : Bytes) (s : Server T W) → (add_addon eng steam a false s).1.downloads ≡ s.downloads
  unfolding add_addon
  downloads-add_addon a s = ground arith

  downloads-remove_addon :
      (a : Bytes) (s : Server T W) → (remove_addon eng steam a false s).1.downloads ≡ s.downloads
  unfolding remove_addon
  downloads-remove_addon a s = ground arith

  -- Only `mm_download_addon` with one argument starts a download, a forced one that is not important.
  abbrev pub downloaded : Option Bytes → Downloads → Downloads
  downloaded none d = d
  downloaded (some a) d = (download_addon steam d a false true).1

  downloads-run_command :
      (c : Command) (args : List Bytes) (s : Server T W)
      → (run_command fl eng steam c args s).downloads
        ≡ downloaded (download_request c args) s.downloads
  unfolding run_command download on_one_argument
  downloads-run_command mm_add_addon args s =
      on_argument_same (λ s. s.downloads) args _ s λ a. downloads-add_addon a s
  downloads-run_command mm_remove_addon args s =
      on_argument_same (λ s. s.downloads) args _ s λ a. downloads-remove_addon a s
  downloads-run_command mm_add_client_addon args s =
      on_argument_same (λ s. s.downloads) args _ s λ a. refl
  downloads-run_command mm_remove_client_addon args s =
      on_argument_same (λ s. s.downloads) args _ s λ a. refl
  downloads-run_command mm_download_addon [] s = refl
  downloads-run_command mm_download_addon (name ∷ []) s = refl
  downloads-run_command mm_download_addon (name ∷ a ∷ []) s = refl
  downloads-run_command mm_download_addon (name ∷ a ∷ b ∷ more) s = refl

  global-add_addon :
      (a : Bytes) (s : Server T W) → global (add_addon eng steam a false s).1 ≡ global s
  unfolding add_addon
  global-add_addon a s = ground arith

  global-remove_addon :
      (a : Bytes) (s : Server T W) → global (remove_addon eng steam a false s).1 ≡ global s
  unfolding remove_addon
  global-remove_addon a s = ground arith

  extra-add_client_addon :
      (a : Bytes) (m : Manager T)
      → (add_client_addon fl false [] m a 0 false).manager.extra_addons ≡ m.extra_addons
  unfolding add_client_addon
  extra-add_client_addon a m = ground arith

  extra-IsGranted :
      (c : Command) (args : List Bytes) (s : Server T W)
      → Distinct (extra s)
      → IsGranted (extra_request c args) (extra s) (extra (run_command fl eng steam c args s))
  unfolding run_command download remove_client_addon
  extra-IsGranted mm_add_addon args s d = on_argument-IsGranted extra asks_for args _ s d λ a.
      subst (λ xs. IsGranted (asks_for a) (extra s) xs) (sym (extra-add_addon a s))
        (added-IsGranted a (extra s) d)
  extra-IsGranted mm_remove_addon args s d = on_argument-IsGranted extra drops args _ s d λ a.
      subst (λ xs. IsGranted (drops a) (extra s) xs) (sym (extra-remove_addon a s))
        (removed-IsGranted a (extra s) d)
  extra-IsGranted mm_add_client_addon args s d =
      kept-IsGranted (extra s) _ d
        (on_argument_same extra args _ s λ a. extra-add_client_addon a s.manager)
  extra-IsGranted mm_remove_client_addon args s d =
      kept-IsGranted (extra s) _ d (on_argument_same extra args _ s λ a. refl)
  extra-IsGranted mm_download_addon args s d =
      kept-IsGranted (extra s) _ d (on_one_argument_same extra args _ s λ a. refl)

  global-IsGranted :
      (c : Command) (args : List Bytes) (s : Server T W)
      → Distinct (global s)
      → IsGranted (global_request c args) (global s) (global (run_command fl eng steam c args s))
  unfolding run_command download remove_client_addon
  global-IsGranted mm_add_client_addon args s d =
      on_argument-IsGranted global asks_for args _ s d λ a.
        subst (λ xs. IsGranted (asks_for a) (global s) xs)
          (sym (global-add_client_addon a s.manager)) (added-IsGranted a (global s) d)
  global-IsGranted mm_remove_client_addon args s d =
      on_argument-IsGranted global drops args _ s d λ a. removed-IsGranted a (global s) d
  global-IsGranted mm_add_addon args s d =
      kept-IsGranted (global s) _ d (on_argument_same global args _ s λ a. global-add_addon a s)
  global-IsGranted mm_remove_addon args s d =
      kept-IsGranted (global s) _ d (on_argument_same global args _ s λ a. global-remove_addon a s)
  global-IsGranted mm_download_addon args s d =
      kept-IsGranted (global s) _ d (on_one_argument_same global args _ s λ a. refl)

  -- Where neither list has repeats, a console command that is given an argument adds it to, or takes
  -- it out of, the one list of addons that it is for, the extra addons or those for all clients, and
  -- leaves the other; with no argument, and for a download, both lists stay. The lists have no
  -- repeats then. The command for a download, with exactly one argument, does what `DownloadAddon`
  -- does to the downloads, and they stay otherwise. What is mounted, the search paths and the
  -- commands that the server was given are as before, whatever the command.
  pub run_command-IsGranted :
      (c : Command) (args : List Bytes) (s : Server T W)
      → Distinct s.manager.extra_addons
      → Distinct s.manager.global_client_addons
      → let after = run_command fl eng steam c args s in
        IsGranted (extra_request c args) s.manager.extra_addons after.manager.extra_addons
        × IsGranted
            (global_request c args)
            s.manager.global_client_addons
            after.manager.global_client_addons
        × (after.downloads ≡ downloaded (download_request c args) s.downloads)
        × (mounted_state after ≡ mounted_state s)
  run_command-IsGranted c args s d e = (
    extra-IsGranted c args s d,
    global-IsGranted c args s e,
    downloads-run_command c args s,
    mounted_state-run_command fl eng steam c args s,
  )
