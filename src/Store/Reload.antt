-- ===== src/Store/Reload.antt =====
-- A save, and the load behind it.
use multi_addon_rss.Base.{
  Bool, Bool-cases, Bytes, Option, [], ap, arith, false, inl, inr, length, length-append, ltb, none,
  refl, some, true, ◌&&◌, ◌==◌, ◌∙◌, ◌≡◌, ◌≤◌,
}
use multi_addon_rss.Prefs.Build.{build_rss_asset_preferences_json, json_head}
use multi_addon_rss.Prefs.Entries.Sound.{IsIdSet}
use multi_addon_rss.Prefs.Entries.Written.{entries}
use multi_addon_rss.Prefs.IdSet.{IdSet}
use multi_addon_rss.Prefs.Parse.{parse_rss_asset_preferences}
use multi_addon_rss.Prefs.RoundTrip.{build-entries, parse-build}
use multi_addon_rss.Store.{
  FileSystem, StoreFile, for_reading, for_writing, load_opt_out_clients, load_preferences,
  preferences_file, publish_temp, save_opt_out_clients, take_parsed, temp_file, write_temp,
}

build-nonempty : (ids : IdSet) → (length (build_rss_asset_preferences_json ids) == 0) ≡ false
build-nonempty ids =
    ap (λ s. length s == 0) (build-entries ids)
    ∙ ground (arith, length-append json_head (entries ids))

module _ {W H : Type 0} (fs : FileSystem W H) where
  -- What the code relies on: a file that is opened for writing is empty, a write that reports all
  -- bytes has stored them, a renaming moves the contents, and a reader finds them and their number.
  pub record StoresBytes (contents : StoreFile → W → Option Bytes) (file_of : H → StoreFile)
      : Type 0 where
    pub opens_empty :
        (w : W) (h : H)
        → (fs.open_file temp_file for_writing w).0 ≡ some h
        → (file_of h ≡ temp_file)
          × (contents temp_file (fs.open_file temp_file for_writing w).1 ≡ some [])
    pub write_stores :
        (b : Bytes) (h : H) (w : W)
        → file_of h ≡ temp_file
        → contents temp_file w ≡ some []
        → (fs.write b h w).0 ≡ length b
        → contents temp_file (fs.write b h w).1 ≡ some b
    pub flush_stores :
        (h : H) (w : W)
        → file_of h ≡ temp_file
        → contents temp_file (fs.flush h w) ≡ contents temp_file w
    pub close_stores :
        (h : H) (w : W)
        → file_of h ≡ temp_file
        → contents temp_file (fs.close h w) ≡ contents temp_file w
    pub rename_moves :
        (w : W)
        → (fs.rename_file temp_file preferences_file w).0 ≡ true
        → contents preferences_file (fs.rename_file temp_file preferences_file w).1
          ≡ contents temp_file w
    pub exists_of :
        (b : Bytes) (w : W)
        → contents preferences_file w ≡ some b
        → fs.file_exists preferences_file w ≡ true
    pub opens_same :
        (w : W) (h : H)
        → (fs.open_file preferences_file for_reading w).0 ≡ some h
        → (file_of h ≡ preferences_file)
          × (contents preferences_file (fs.open_file preferences_file for_reading w).1
              ≡ contents preferences_file w)
    pub size_of :
        (b : Bytes) (h : H) (w : W)
        → file_of h ≡ preferences_file
        → contents preferences_file w ≡ some b
        → fs.size h w ≡ length b
    pub read_of :
        (b : Bytes) (h : H) (w : W)
        → file_of h ≡ preferences_file
        → contents preferences_file w ≡ some b
        → (fs.read h (length b) w).0.0 ≡ length b
        → (fs.read h (length b) w).0.1 ≡ b

  module _ (contents : StoreFile → W → Option Bytes) (file_of : H → StoreFile)
      (k : StoresBytes contents file_of) where
    publish_done :
        (success : Bool) (w : W)
        → (publish_temp fs success w).0 ≡ true
        → (success ≡ true)
          × (contents preferences_file (publish_temp fs success w).1 ≡ contents temp_file w)
    unfolding publish_temp
    publish_done false w h = absurd (ground arith)
    publish_done true w h = elim (Bool-cases (fs.rename_file temp_file preferences_file w).0) [
      | inl e ↦ (refl, rw e (k.rename_moves w e))
      | inr e ↦ absurd (ground arith)
    ]

    write_done :
        (json : Bytes) (o : Option H) (w : W)
        → ((h : H) → o ≡ some h → (file_of h ≡ temp_file) × (contents temp_file w ≡ some []))
        → (write_temp fs json o w).0 ≡ true
        → contents preferences_file (write_temp fs json o w).1 ≡ some json
    unfolding write_temp
    write_done json none w of h = absurd (ground arith)
    write_done json (some f) w of h =
        let t = of f refl in
        let written = fs.write json f w in
        let flushed = fs.flush f written.1 in
        let p =
          publish_done (written.0 == length json && fs.is_ok f flushed) (fs.close f flushed) h in
        p.1
        ∙ k.close_stores f flushed t.0
        ∙ k.flush_stores f written.1 t.0
        ∙ k.write_stores json f w t.0 t.1 (ground (arith, p.0))

    pub save_done :
        (ids : IdSet) (w : W)
        → (save_opt_out_clients fs ids w).0 ≡ true
        → contents preferences_file (save_opt_out_clients fs ids w).1
          ≡ some (build_rss_asset_preferences_json ids)
    unfolding save_opt_out_clients
    save_done ids w h =
        let made = fs.create_dirs preferences_file w in
        let opened = fs.open_file temp_file for_writing made in
        write_done (build_rss_asset_preferences_json ids) opened.0 opened.1 (k.opens_empty made) h

    load_done :
        (json : Bytes) (ids : IdSet) (h : H) (w : W)
        → file_of h ≡ preferences_file
        → contents preferences_file w ≡ some json
        → (length json == 0) ≡ false
        → length json ≤ 1048576
        → (fs.read h (length json) w).0.0 ≡ length json
        → parse_rss_asset_preferences json [] ≡ (true, ids)
        → let r = load_preferences fs (some h) w in (r.members ≡ ids) × (r.writable ≡ true)
    unfolding load_preferences take_parsed
    load_done json ids h w of stored some_byte small all parsed =
        let s = k.size_of json h w of stored in
        let r = k.read_of json h w of stored all in
        let fits : ltb 1048576 (length json) ≡ false = ground arith in
        let same : (length json == length json) ≡ true = ground arith in
        rw (s, some_byte, fits, all, same, r, parsed) (refl, refl)

    -- A file that holds what the writer prints of a set is loaded as the set.
    pub stored_load :
        (ids : IdSet) (w : W) (h : H)
        → IsIdSet ids
        → contents preferences_file w ≡ some (build_rss_asset_preferences_json ids)
        → length (build_rss_asset_preferences_json ids) ≤ 1048576
        → (fs.open_file preferences_file for_reading w).0 ≡ some h
        → (fs.read h
            (length (build_rss_asset_preferences_json ids))
            (fs.open_file preferences_file for_reading w).1).0.0
          ≡ length (build_rss_asset_preferences_json ids)
        → let r = load_opt_out_clients fs w in (r.members ≡ ids) × (r.writable ≡ true)
    unfolding load_opt_out_clients
    stored_load ids w h valid stored small opened all =
        let json = build_rss_asset_preferences_json ids in
        let o = k.opens_same w h opened in
        rw (k.exists_of json w stored, opened)
          (load_done json ids h (fs.open_file preferences_file for_reading w).1 o.0 (o.1 ∙ stored)
            (build-nonempty ids) small all (parse-build ids [] valid.0 valid.1))

    -- A set of valid ids that is saved is loaded again, with the store writable, where the file is
    -- opened and read to its end and has 1 MiB at most, on a file system that keeps what is written.
    pub save_load :
        (ids : IdSet) (w : W) (h : H)
        → IsIdSet ids
        → (save_opt_out_clients fs ids w).0 ≡ true
        → length (build_rss_asset_preferences_json ids) ≤ 1048576
        → (fs.open_file preferences_file for_reading (save_opt_out_clients fs ids w).1).0 ≡ some h
        → (fs.read h
            (length (build_rss_asset_preferences_json ids))
            (fs.open_file preferences_file for_reading (save_opt_out_clients fs ids w).1).1).0.0
          ≡ length (build_rss_asset_preferences_json ids)
        → let r = load_opt_out_clients fs (save_opt_out_clients fs ids w).1 in
          (r.members ≡ ids) × (r.writable ≡ true)
    save_load ids w h valid done small opened all =
        stored_load ids (save_opt_out_clients fs ids w).1 h valid (save_done ids w done) small
          opened all
