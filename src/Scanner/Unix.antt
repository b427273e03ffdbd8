-- ===== src/Scanner/Unix.antt =====
-- The search for the virtual table of a class in a Linux module, in src/utils/plat_unix.cpp.
use multi_addon_rss.Base.{
  Bytes, List, Option, [], codes, false, if◌then◌else◌, length, none, some, suc, zero, ℕ, ◌++◌, ◌∷◌,
}
use multi_addon_rss.Prefs.Decimal.{decimal}
use multi_addon_rss.Scanner.{
  Memory, Section, SignatureIterator, back, find_first, find_next, forward, get_section, holds_word,
  if_found, new_iterator, or_else, word_bytes,
}

-- `decoratedTableName`, with its terminator.
unfoldable pub unix_class_name : Bytes → Bytes
unix_class_name name = decimal (length name) ++ (name ++ 0 ∷ [])

module _ (mem : Memory) where
  -- `FindVirtualTable` on Linux: `while (void *vtable = sigIt3.FindNext(false))`, with `fuel` rounds
  -- left.
  unfoldable pub unix_tables : ℕ → SignatureIterator → Option (Option ℕ)
  unix_tables zero it = none
  unix_tables (suc fuel) it =
      let found = find_next mem false it in
      let rest = unix_tables fuel found.1 in
      if_found found.0
        λ p. if holds_word mem 8 (back p 8) 0 then some (some (forward p 8)) else rest

  -- The search of one of the sections, which is passed over where it is missing.
  abbrev pub unix_section : ℕ → Option Section → ℕ → Option (Option ℕ)
  unix_section fuel section type_info =
      if_found section
        λ s. unix_tables fuel (new_iterator s.section_base s.section_size (word_bytes 8 type_info))

  -- The loop over the two sections that may hold the table.
  unfoldable pub unix_sections : ℕ → List Section → ℕ → List Bytes → Option (Option ℕ)
  unix_sections fuel sections type_info [] = some none
  unix_sections fuel sections type_info (name ∷ names) =
      or_else (unix_section fuel (get_section sections name) type_info)
        (unix_sections fuel sections type_info names)

  -- `FindVirtualTable` on Linux.
  unfoldable pub find_virtual_table_unix : ℕ → List Section → Bytes → Option (Option ℕ)
  find_virtual_table_unix fuel sections name =
      if_found (get_section sections (codes ".rodata")) λ constants.
        if_found (get_section sections (codes ".data.rel.ro")) λ relocations.
          if_found (find_first mem constants (unix_class_name name)) λ class_name.
            if_found (find_first mem relocations (word_bytes 8 class_name)) λ type_name.
              unix_sections fuel sections (back type_name 8)
                (codes ".data.rel.ro" ∷ codes ".data.rel.ro.local" ∷ [])
