-- ===== src/Store/Sessions.antt =====
-- The setter with its files behaves as the service, and a restart keeps what the service has.
use multi_addon_rss.Base.{
  Bool, Bool-cases, Bytes, List, Option, [], ap, arith, bool_eq, false, if◌then◌else◌, inl, inr,
  length, not, refl, some, subst, suc, sym, true, zero, ℕ, ◌<◌, ◌==◌, ◌∙◌, ◌∷◌, ◌≡◌, ◌≤◌,
}
use multi_addon_rss.Clients.{ClientMap, Manager}
use multi_addon_rss.Prefs.Build.{build_rss_asset_preferences_json}
use multi_addon_rss.Prefs.Change.{Change, apply_rss_preference_change, set_member}
use multi_addon_rss.Prefs.Change.Outcomes.{
  change_blocked, change_confirmed, change_rolled_back, change_saved, member_of_change,
  set_member-valid,
}
use multi_addon_rss.Prefs.Decimal.{ull_mod}
use multi_addon_rss.Prefs.IdSet.{Ascends, IdSet, member, member-erase, member-insert}
use multi_addon_rss.Store.{
  FileSystem, StoreFile, cache_persisted, change_of, for_reading, load_opt_out_clients,
  persist_members, preferences_file, save_opt_out_clients, set_client_rss_assets_enabled,
  setting_of,
}
use multi_addon_rss.Store.Reload.{StoresBytes, save_done, stored_load}
use multi_addon_rss.Store.Saves.{KeepsPreferences, save_failed_keeps}
use multi_addon_rss.Store.Service.{
  AllIds64, Refines, Represents, Service, Session, alters, confirms, locks, over, refuses, serves,
  set_all,
}

member-set_member :
    (id j : ℕ) (enabled : Bool) (members : IdSet)
    → Ascends 0 members
    → member j (set_member id enabled members) ≡ (if id == j then not enabled else member j members)
unfolding set_member
member-set_member id j true members a = ground (arith, member-erase id j 0 members a)
member-set_member id j false members a = ground (arith, member-insert id j members)

opposite : (b enabled : Bool) → bool_eq (not b) enabled ≡ true → b ≡ not enabled
opposite true true e = ground arith
opposite true false e = refl
opposite false true e = refl
opposite false false e = ground arith

module _ {T W H : Type 0} (fs : FileSystem W H) (contents : StoreFile → W → Option Bytes)
    (file_of : H → StoreFile) (keeps : KeepsPreferences fs contents file_of)
    (stores : StoresBytes fs contents file_of) where
  set_client_change :
      (m : Manager T) (id : ℕ) (enabled : Bool) (w : W)
      → 0 < id
      → set_client_rss_assets_enabled fs m id enabled w
        ≡ setting_of fs m (change_of fs m id enabled w)
  unfolding set_client_rss_assets_enabled
  set_client_change m id enabled w p =
      let positive : (id == 0) ≡ false = ground arith in rw positive refl

  set_client_zero :
      (m : Manager T) (enabled : Bool) (w : W)
      → set_client_rss_assets_enabled fs m 0 enabled w
        ≡ record { result = false; manager = m; files = w }
  unfolding set_client_rss_assets_enabled
  set_client_zero m enabled w = refl

  change-Refines :
      (s : Service) (m : Manager T) (id : ℕ) (enabled : Bool) (w : W)
      → Represents fs contents s m w
      → 0 < id
      → id < ull_mod
      → Refines fs contents s id enabled (setting_of fs m (change_of fs m id enabled w))
  change-Refines s m id enabled w (v, same, latch, stored) p b =
      let members = m.rss_asset_opt_out_clients in
      let world : W × ClientMap T = (w, m.client_addons) in
      let persist = persist_members fs in
      let cache = cache_persisted fs id enabled in
      let change : Bool → Change (W × ClientMap T) =
        λ latch. apply_rss_preference_change persist cache latch members id enabled world in
      let Goal : Change (W × ClientMap T) → Type 0 =
        λ c. Refines fs contents s id enabled (setting_of fs m c) in
      elim (Bool-cases m.rss_asset_preferences_writable) [
        | inr e ↦
            subst Goal
              (sym (
                ap change e
                ∙ change_blocked persist cache false members id enabled world (inl refl)))
              (s, refuses (inr (sym latch ∙ e)), (v, same, sym e ∙ latch, stored))
        | inl e ↦
            let is_open = sym latch ∙ e in
            elim (Bool-cases (bool_eq (not (member id members)) enabled)) [
              | inl k ↦
                  subst Goal
                    (sym
                      (ap change e ∙ change_confirmed persist cache members id enabled world p k))
                    (
                      s,
                      confirms p is_open (sym (same id) ∙ opposite (member id members) enabled k),
                      (v, same, sym e ∙ latch, stored),
                    )
              | inr k ↦
                  let listed = member_of_change (member id members) enabled k in
                  let out = sym (same id) ∙ listed in
                  let changed = set_member id enabled members in
                  elim (Bool-cases (save_opt_out_clients fs changed w).0) [
                    | inl saved ↦
                        subst Goal
                          (sym (
                            ap change e
                            ∙ change_saved persist cache members id enabled world p k saved))
                          (
                            record s {
                              opted_out = λ j. if id == j then not enabled else s.opted_out j;
                            },
                            alters p is_open out,
                            (
                              set_member-valid persist cache members id enabled v p b,
                              λ j.
                                  member-set_member id j enabled members v.0
                                  ∙ ap (λ o. if id == j then not enabled else o) (same j),
                              sym is_open,
                              save_done fs contents file_of stores changed w saved,
                            ),
                          )
                    | inr fails ↦
                        subst Goal
                          (sym (
                            ap change e
                            ∙ change_rolled_back persist cache members id enabled world v.0 p listed
                                fails))
                          (
                            record s { is_open = false },
                            locks p is_open out,
                            (
                              v,
                              same,
                              refl,
                              save_failed_keeps fs contents file_of keeps changed w fails ∙ stored,
                            ),
                          )
                  ]
            ]
      ]

  -- Every call of the setter is a request that the service serves.
  set_client-Refines :
      (s : Service) (m : Manager T) (id : ℕ) (enabled : Bool) (w : W)
      → Represents fs contents s m w
      → id < ull_mod
      → Refines fs contents s id enabled (set_client_rss_assets_enabled fs m id enabled w)
  set_client-Refines s m zero enabled w r b =
      subst (Refines fs contents s 0 enabled) (sym (set_client_zero m enabled w))
        (s, refuses (inl refl), r)
  set_client-Refines s m (suc n) enabled w r b =
      subst (Refines fs contents s (suc n) enabled)
        (sym (set_client_change m (suc n) enabled w (omega arith)))
        (change-Refines s m (suc n) enabled w r (omega arith) b)

  -- On a file system that keeps what is written and leaves the preference file alone until a
  -- renaming succeeds, a run of setter calls with 64-bit ids is a session of the service, with the
  -- same results: a request is refused for the id 0 or where the service is closed, confirmed where
  -- it is the present preference, changes the one preference, or closes the service with no
  -- preference changed. Behind it the members are a set of valid ids, and the preference file holds
  -- what the writer prints of them, both as before the run.
  pub set_all-Session :
      (s : Service) (rs : List (ℕ × Bool)) (m : Manager T) (w : W)
      → AllIds64 rs
      → Represents fs contents s m w
      → let r = set_all fs rs m w in
        (t : Service) × Session s rs r.0 t × Represents fs contents t r.1 r.2
  unfolding set_all
  set_all-Session s [] m w b r = (s, over, r)
  set_all-Session s ((id, enabled) ∷ rs) m w (b, bs) r =
      let set = set_client_rss_assets_enabled fs m id enabled w in
      let (t, one, represents) = set_client-Refines s m id enabled w r b in
      let (u, more, behind) = set_all-Session t rs set.manager set.files bs represents in
      (u, serves one more, behind)

  -- On a file system that keeps what is written and leaves the preference file alone until a
  -- renaming succeeds, a load behind a run of setter calls with 64-bit ids finds exactly those opted
  -- out that the service has, the latch open, whatever of the calls failed, where the file is opened
  -- and read to its end and has 1 MiB at most. Before the run the members are a set of valid ids,
  -- and the file holds what the writer prints of them.
  pub restart_keeps :
      (s : Service) (rs : List (ℕ × Bool)) (m : Manager T) (w : W) (h : H)
      → AllIds64 rs
      → Represents fs contents s m w
      → let r = set_all fs rs m w in
        let json = build_rss_asset_preferences_json r.1.rss_asset_opt_out_clients in
        let opened = fs.open_file preferences_file for_reading r.2 in
        length json ≤ 1048576
        → opened.0 ≡ some h
        → (fs.read h (length json) opened.1).0.0 ≡ length json
        → (t : Service) × Session s rs r.0 t
          × ((j : ℕ) → member j (load_opt_out_clients fs r.2).members ≡ t.opted_out j)
          × ((load_opt_out_clients fs r.2).writable ≡ true)
  restart_keeps s rs m w h b represents small opened all =
      let r = set_all fs rs m w in
      let (t, session, (valid, same, latch, stored)) = set_all-Session s rs m w b represents in
      let loaded =
        stored_load fs contents file_of stores r.1.rss_asset_opt_out_clients r.2 h valid stored
          small opened all in
      (t, session, (λ j. ap (member j) loaded.0 ∙ same j), loaded.1)
