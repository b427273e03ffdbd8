-- ===== src/Scanner/Windows.antt =====
-- The search for the virtual table of a class in a Windows module, in src/utils/plat_win.cpp.
use multi_addon_rss.Base.{
  Bool, Bytes, List, Option, [], codes, false, if◌then◌else◌, none, not, some, suc, zero, ℕ, ◌&&◌,
  ◌++◌, ◌∷◌,
}
use multi_addon_rss.Scanner.{
  Memory, Section, SignatureIterator, back, find_first, find_next, forward, get_section, holds_word,
  if_found, new_iterator, word_bytes,
}

-- `decoratedTableName`, with its terminator.
unfoldable pub windows_class_name : Bytes → Bytes
windows_class_name name = codes ".?AV" ++ (name ++ (codes "@@" ++ 0 ∷ []))

module _ (mem : Memory) where
  -- The two checks of the header of a complete object locator.
  abbrev pub is_locator : ℕ → Bool
  is_locator p = holds_word mem 4 (back p 12) 1 && holds_word mem 4 (back p 8) 0

  -- The loop over what may be complete object locators, with `fuel` rounds left.
  unfoldable pub windows_locators : ℕ → Section → SignatureIterator → Option (Option ℕ)
  windows_locators zero constants it = none
  windows_locators (suc fuel) constants it =
      let found = find_next mem false it in
      let rest = windows_locators fuel constants found.1 in
      if_found found.0 λ p.
        if not (is_locator p)
        then rest
        else if_found (find_first mem constants (word_bytes 8 (back p 12)))
            λ table. some (some (forward table 8))

  -- `FindVirtualTable` on Windows.
  unfoldable pub find_virtual_table_windows : ℕ → ℕ → List Section → Bytes → Option (Option ℕ)
  find_virtual_table_windows fuel module_base sections name =
      if_found (get_section sections (codes ".data")) λ data_section.
        if_found (get_section sections (codes ".rdata")) λ constants.
          if_found (find_first mem data_section (windows_class_name name)) λ class_name.
            windows_locators fuel constants (
              new_iterator constants.section_base constants.section_size
                (word_bytes 4 (back (back class_name 16) module_base)))
