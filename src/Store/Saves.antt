-- ===== src/Store/Saves.antt =====
-- What a failed save leaves.
use multi_addon_rss.Base.{
  Bool, Bool-cases, Bytes, Option, arith, false, inl, inr, length, none, refl, some, true, ◌&&◌,
  ◌==◌, ◌∙◌, ◌≡◌,
}
use multi_addon_rss.Prefs.Build.{build_rss_asset_preferences_json}
use multi_addon_rss.Prefs.IdSet.{IdSet}
use multi_addon_rss.Store.{
  FileSystem, StoreFile, for_writing, preferences_file, publish_temp, save_opt_out_clients,
  temp_file, write_temp,
}

module _ {W H : Type 0} (fs : FileSystem W H) where
  -- What the code relies on: `contents` tells what a file holds and `file_of` which file a handle is
  -- of; a call for the temporary file leaves the preferences alone, and so do directories, and a
  -- renaming that fails.
  pub record KeepsPreferences (contents : StoreFile → W → Option Bytes) (file_of : H → StoreFile)
      : Type 0 where
    pub dirs_keep :
        (w : W)
        → contents preferences_file (fs.create_dirs preferences_file w)
          ≡ contents preferences_file w
    pub open_keeps :
        (w : W)
        → contents preferences_file (fs.open_file temp_file for_writing w).1
          ≡ contents preferences_file w
    pub open_of :
        (w : W) (h : H) → (fs.open_file temp_file for_writing w).0 ≡ some h → file_of h ≡ temp_file
    pub write_keeps :
        (b : Bytes) (h : H) (w : W)
        → file_of h ≡ temp_file
        → contents preferences_file (fs.write b h w).1 ≡ contents preferences_file w
    pub flush_keeps :
        (h : H) (w : W)
        → file_of h ≡ temp_file
        → contents preferences_file (fs.flush h w) ≡ contents preferences_file w
    pub close_keeps :
        (h : H) (w : W)
        → file_of h ≡ temp_file
        → contents preferences_file (fs.close h w) ≡ contents preferences_file w
    pub remove_keeps :
        (w : W)
        → contents preferences_file (fs.remove_file temp_file w) ≡ contents preferences_file w
    pub failed_rename_keeps :
        (w : W)
        → (fs.rename_file temp_file preferences_file w).0 ≡ false
        → contents preferences_file (fs.rename_file temp_file preferences_file w).1
          ≡ contents preferences_file w

  module _ (contents : StoreFile → W → Option Bytes) (file_of : H → StoreFile)
      (k : KeepsPreferences contents file_of) where
    publish_failed :
        (success : Bool) (w : W)
        → (publish_temp fs success w).0 ≡ false
        → contents preferences_file (publish_temp fs success w).1 ≡ contents preferences_file w
    unfolding publish_temp
    publish_failed false w h = k.remove_keeps w
    publish_failed true w h = elim (Bool-cases (fs.rename_file temp_file preferences_file w).0) [
      | inl e ↦ absurd (ground arith)
      | inr e ↦ rw e (
          k.remove_keeps (fs.rename_file temp_file preferences_file w).1
          ∙ k.failed_rename_keeps w e)
    ]

    write_failed :
        (json : Bytes) (o : Option H) (w : W)
        → ((h : H) → o ≡ some h → file_of h ≡ temp_file)
        → (write_temp fs json o w).0 ≡ false
        → contents preferences_file (write_temp fs json o w).1 ≡ contents preferences_file w
    unfolding write_temp
    write_failed json none w of h = refl
    write_failed json (some f) w of h =
        let t = of f refl in
        let written = fs.write json f w in
        let flushed = fs.flush f written.1 in
        publish_failed (written.0 == length json && fs.is_ok f flushed) (fs.close f flushed) h
        ∙ k.close_keeps f flushed t
        ∙ k.flush_keeps f written.1 t
        ∙ k.write_keeps json f w t

    -- A save that fails leaves the preference file as it was, on a file system where calls for the
    -- temporary file do not touch it, nor does a renaming that fails.
    pub save_failed_keeps :
        (ids : IdSet) (w : W)
        → (save_opt_out_clients fs ids w).0 ≡ false
        → contents preferences_file (save_opt_out_clients fs ids w).1 ≡ contents preferences_file w
    unfolding save_opt_out_clients
    save_failed_keeps ids w h =
        let made = fs.create_dirs preferences_file w in
        let opened = fs.open_file temp_file for_writing made in
        write_failed (build_rss_asset_preferences_json ids) opened.0 opened.1 (k.open_of made) h
        ∙ k.open_keeps made
        ∙ k.dirs_keep w
