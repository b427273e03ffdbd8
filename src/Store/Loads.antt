-- ===== src/Store/Loads.antt =====
-- What a load and the setter make of the members.
use multi_addon_rss.Base.{
  Bool, Bool-cases, Bytes, Option, [], arith, false, if◌then◌else◌, inl, inr, ltb, none, refl, some,
  true, ℕ, ◌<◌, ◌==◌, ◌≡◌, ◌⊎◌,
}
use multi_addon_rss.Clients.{Manager}
use multi_addon_rss.Prefs.Change.Outcomes.{change-IsIdSet}
use multi_addon_rss.Prefs.Decimal.{ull_mod}
use multi_addon_rss.Prefs.Entries.Sound.{IsIdSet}
use multi_addon_rss.Prefs.IdSet.{IdSet}
use multi_addon_rss.Prefs.Legacy.{collect_legacy_opt_out_ids}
use multi_addon_rss.Prefs.Legacy.Lines.{collect_legacy-IsIdSet}
use multi_addon_rss.Prefs.Parse.{parse_rss_asset_preferences}
use multi_addon_rss.Prefs.Parse.Sound.{parse-IsIdSet}
use multi_addon_rss.Store.{
  FileSystem, Loaded, cache_persisted, for_reading, legacy_file, load_legacy, load_opt_out_clients,
  load_preferences, migrate, not_loaded, persist_members, preferences_file, save_opt_out_clients,
  set_client_rss_assets_enabled, take_parsed,
}

first_true : (p : Bool × IdSet) → p.0 ≡ true → p ≡ (true, p.1)
first_true (true, ids) e = refl
first_true (false, ids) e = absurd (ground arith)

-- The members are valid, and there are none where the store is locked.
abbrev pub IsValid : {W : Type 0} → Loaded W → Type 0
IsValid r = IsIdSet r.members × ((r.writable ≡ true) ⊎ (r.members ≡ []))

module _ {W H : Type 0} (fs : FileSystem W H) where
  not_loaded-IsValid : (w : W) → IsValid (not_loaded w)
  not_loaded-IsValid w = ((tt, tt), inr refl)

  take_parsed-IsValid :
      (json : Bytes) (w : W) → IsValid (take_parsed fs (parse_rss_asset_preferences json []) w)
  unfolding take_parsed
  take_parsed-IsValid json w = elim (parse-IsIdSet json []) [
    | inl p ↦ rw (p.0) (p.1, inl refl)
    | inr p ↦ rw (p.0) (not_loaded-IsValid w)
  ]

  load_preferences-IsValid : (o : Option H) (w : W) → IsValid (load_preferences fs o w)
  unfolding load_preferences
  load_preferences-IsValid none w = not_loaded-IsValid w
  load_preferences-IsValid (some h) w =
      let size = fs.size h w in
      let got = if size == 0 then ((0, []), w) else fs.read h size w in
      elim (Bool-cases (ltb 1048576 size)) [
        | inl e ↦ rw e (not_loaded-IsValid (fs.close h w))
        | inr e ↦ elim (Bool-cases (got.0.0 == size)) [
          | inl k ↦ rw (e, k) (take_parsed-IsValid got.0.1 (fs.close h got.1))
          | inr k ↦ rw (e, k) (not_loaded-IsValid (fs.close h got.1))
        ]
      ]

  migrate-IsValid : (ids : IdSet) (w : W) → IsIdSet ids → IsValid (migrate fs ids w)
  unfolding migrate
  migrate-IsValid ids w v = elim (Bool-cases (save_opt_out_clients fs ids w).0) [
    | inl e ↦ rw e (v, inl refl)
    | inr e ↦ rw e (not_loaded-IsValid (save_opt_out_clients fs ids w).1)
  ]

  load_legacy-IsValid : (o : Option H) (w : W) → IsValid (load_legacy fs o w)
  unfolding load_legacy
  load_legacy-IsValid none w = not_loaded-IsValid w
  load_legacy-IsValid (some h) w =
      let got = fs.read_lines h w in
      let ok = fs.is_ok h got.1 in
      let collected = collect_legacy_opt_out_ids got.0 ok [] in
      elim (Bool-cases collected.0) [
        | inl e ↦ rw e (
            migrate-IsValid collected.1 (fs.close h got.1)
              (collect_legacy-IsIdSet got.0 ok [] collected.1 (first_true collected e)))
        | inr e ↦ rw e (not_loaded-IsValid (fs.close h got.1))
      ]

  -- On every path a load leaves a set of nonzero 64-bit ids, ascending without repeats, and the
  -- store is writable or there are no ids.
  pub load-IsValid : (w : W) → IsValid (load_opt_out_clients fs w)
  unfolding load_opt_out_clients
  load-IsValid w =
      let main = fs.open_file preferences_file for_reading w in
      let legacy = fs.open_file legacy_file for_reading w in
      elim (Bool-cases (fs.file_exists preferences_file w)) [
        | inl e ↦ rw e (load_preferences-IsValid main.0 main.1)
        | inr e ↦ elim (Bool-cases (fs.file_exists legacy_file w)) [
          | inl k ↦ rw (e, k) (load_legacy-IsValid legacy.0 legacy.1)
          | inr k ↦ rw (e, k) (migrate-IsValid [] w (tt, tt))
        ]
      ]

  -- The setter keeps the preferences a set of nonzero 64-bit ids, ascending without repeats, on
  -- every path, for a 64-bit id.
  pub set_client-IsIdSet :
      {T : Type 0} (m : Manager T) (id : ℕ) (enabled : Bool) (w : W)
      → IsIdSet m.rss_asset_opt_out_clients
      → id < ull_mod
      → IsIdSet (set_client_rss_assets_enabled fs m id enabled w).manager.rss_asset_opt_out_clients
  unfolding set_client_rss_assets_enabled
  set_client-IsIdSet m id enabled w v b = elim (Bool-cases (id == 0)) [
    | inl e ↦ rw e v
    | inr e ↦ rw e (
        change-IsIdSet (persist_members fs) (cache_persisted fs id enabled)
          m.rss_asset_preferences_writable m.rss_asset_opt_out_clients id enabled
          (w, m.client_addons) v (ground arith) b)
  ]
