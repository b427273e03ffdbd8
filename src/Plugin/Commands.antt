-- ===== src/Plugin/Commands.antt =====
-- The console commands of src/multiaddonmanager.cpp. `args` has the name of the command first. They
-- change lists and start downloads.
use multi_addon_rss.Base.{Bytes, List, [], ap, arith, false, refl, true, ◌∷◌, ◌≡◌}
use multi_addon_rss.ClientLists.{add_client_addon, remove_client_addon}
use multi_addon_rss.Clients.{Floats, Manager}
use multi_addon_rss.Downloads.{Steam}
use multi_addon_rss.Mounts.{Engine, Server, add_addon, download, remove_addon}

pub data Command : Type 0 where
  mm_add_client_addon mm_remove_client_addon mm_add_addon mm_remove_addon mm_download_addon :
      Command

-- `args.ArgC() < 2` leaves the state, and `args[1]` is used otherwise.
unfoldable pub on_argument : {S : Type 0} → List Bytes → (Bytes → S → S) → S → S
on_argument [] f s = s
on_argument (name ∷ []) f s = s
on_argument (name ∷ addon ∷ more) f s = f addon s

-- `args.ArgC() != 2`
unfoldable pub on_one_argument : {S : Type 0} → List Bytes → (Bytes → S → S) → S → S
on_one_argument [] f s = s
on_one_argument (name ∷ []) f s = s
on_one_argument (name ∷ addon ∷ []) f s = f addon s
on_one_argument (name ∷ addon ∷ more ∷ others) f s = s

-- What the engine has of the server, and what is mounted.
abbrev pub mounted_state : {T W : Type 0} → Server T W → List Bytes × W × List Bytes
mounted_state s = (s.manager.mounted_addons, s.search_paths, s.commands)

module _ {T W : Type 0} (fl : Floats T) (eng : Engine W) (steam : Steam) where
  -- The calls, with the Steam id 0 and without a refresh.
  unfoldable pub run_command : Command → List Bytes → Server T W → Server T W
  run_command mm_add_client_addon args s =
      on_argument args
        (λ addon s. record s {
          manager = (add_client_addon fl false [] s.manager addon 0 false).manager;
        })
        s
  run_command mm_remove_client_addon args s =
      on_argument args (λ addon s. record s { manager = remove_client_addon fl s.manager addon 0 })
        s
  run_command mm_add_addon args s =
      on_argument args (λ addon s. (add_addon eng steam addon false s).1) s
  run_command mm_remove_addon args s =
      on_argument args (λ addon s. (remove_addon eng steam addon false s).1) s
  run_command mm_download_addon args s =
      on_one_argument args (λ addon s. download eng steam addon false true s) s

  on_argument_kept :
      (args : List Bytes) (f : Bytes → Server T W → Server T W) (s : Server T W)
      → ((a : Bytes) → mounted_state (f a s) ≡ mounted_state s)
      → mounted_state (on_argument args f s) ≡ mounted_state s
  unfolding on_argument
  on_argument_kept [] f s k = refl
  on_argument_kept (name ∷ []) f s k = refl
  on_argument_kept (name ∷ a ∷ more) f s k = k a

  on_one_argument_kept :
      (args : List Bytes) (f : Bytes → Server T W → Server T W) (s : Server T W)
      → ((a : Bytes) → mounted_state (f a s) ≡ mounted_state s)
      → mounted_state (on_one_argument args f s) ≡ mounted_state s
  unfolding on_one_argument
  on_one_argument_kept [] f s k = refl
  on_one_argument_kept (name ∷ []) f s k = refl
  on_one_argument_kept (name ∷ a ∷ []) f s k = k a
  on_one_argument_kept (name ∷ a ∷ b ∷ more) f s k = refl

  add_kept :
      (a : Bytes) (s : Server T W)
      → mounted_state (add_addon eng steam a false s).1 ≡ mounted_state s
  unfolding add_addon
  add_kept a s = ground arith

  remove_kept :
      (a : Bytes) (s : Server T W)
      → mounted_state (remove_addon eng steam a false s).1 ≡ mounted_state s
  unfolding remove_addon
  remove_kept a s = ground arith

  add_client_kept :
      (a : Bytes) (m : Manager T)
      → (add_client_addon fl false [] m a 0 false).manager.mounted_addons ≡ m.mounted_addons
  unfolding add_client_addon
  add_client_kept a m = ground arith

  remove_client_kept :
      (a : Bytes) (m : Manager T) → (remove_client_addon fl m a 0).mounted_addons ≡ m.mounted_addons
  unfolding remove_client_addon
  remove_client_kept a m = refl

  -- No console command, whatever its arguments, changes the list of mounted addons, the search paths
  -- or the commands that the server was given.
  pub mounted_state-run_command :
      (c : Command) (args : List Bytes) (s : Server T W)
      → mounted_state (run_command c args s) ≡ mounted_state s
  unfolding run_command download
  mounted_state-run_command mm_add_client_addon args s =
      on_argument_kept args _ s λ a.
        ap (λ (xs : List Bytes). (xs, s.search_paths, s.commands)) (add_client_kept a s.manager)
  mounted_state-run_command mm_remove_client_addon args s = on_argument_kept args _ s λ a.
      ap (λ (xs : List Bytes). (xs, s.search_paths, s.commands)) (remove_client_kept a s.manager)
  mounted_state-run_command mm_add_addon args s = on_argument_kept args _ s λ a. add_kept a s
  mounted_state-run_command mm_remove_addon args s = on_argument_kept args _ s λ a. remove_kept a s
  mounted_state-run_command mm_download_addon args s = on_one_argument_kept args _ s λ a. refl
