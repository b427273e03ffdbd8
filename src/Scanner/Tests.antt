-- ===== src/Scanner/Tests.antt =====
-- A module with one class, a map of two lines, and runs at the edges.
use multi_addon_rss.Addons.{is_empty}
use multi_addon_rss.Base.{
  Bytes, List, [], ap, arith, codes, equal, false, get_elem?, if◌then◌else◌, length, none, refl,
  some, subst, suc, sym, true, zero, ℕ, ◌++◌, ◌∷◌, ◌≡◌, ◌≤◌,
}
use multi_addon_rss.Prefs.Decimal.{decimal, digits_rev}
use multi_addon_rss.Scanner.{
  Memory, Section, SignatureIterator, find_next, get_section, matches_at, new_iterator, scan,
  word_bytes,
}
use multi_addon_rss.Scanner.Ends.{EndsWith}
use multi_addon_rss.Scanner.Modules.{ElfFile, ModuleRange, get_module_information}
use multi_addon_rss.Scanner.Pages.{
  Process, Prot, Protect, copy_until, get_prot, hex_digit, hex_value_from, map_fields,
  parse_prot_from, plat_write_memory, prot_none,
}
use multi_addon_rss.Scanner.Patches.{overlaps, patched, plat_write_memory_restores}
use multi_addon_rss.Scanner.Protections.{
  AllMappings, Mapping, any_of, first_enclosing, get_prot_first, has_char, map_lines,
}
use multi_addon_rss.Scanner.Search.{IsFirstMatch, find_next_iff}
use multi_addon_rss.Scanner.Sections.{first_header, get_section-get_module_information}
use multi_addon_rss.Scanner.Tables.{EndsAt}
use multi_addon_rss.Scanner.Unix.{
  find_virtual_table_unix, unix_class_name, unix_sections, unix_tables,
}
use multi_addon_rss.Scanner.UnixTables.{
  HasNoUnixTable, IsUnixTable, find_virtual_table_unix-EndsWith,
}
use multi_addon_rss.Scanner.Windows.{
  find_virtual_table_windows, windows_class_name, windows_locators,
}
use multi_addon_rss.Scanner.WindowsTables.{
  HasNoWindowsTable, IsWindowsTable, find_virtual_table_windows-EndsWith,
}

-- The bytes of an image from the address 0 on.
abbrev image_memory : Bytes → Memory
image_memory image p = elim (get_elem? image p) [ none ↦ 256 | some b ↦ b ]

outside : (image : Bytes) (p : ℕ) → length image ≤ p → get_elem? image p ≡ none
outside [] p h = refl
outside (b ∷ image) zero h = absurd (omega (arith, h))
outside (b ∷ image) (suc p) h = outside image p (omega (arith, h))

image_memory-EndsAt : (image : Bytes) → EndsAt (image_memory image) (length image)
image_memory-EndsAt image p h =
    let e = ap (λ o. elim o [ none ↦ 256 | some b ↦ b ]) (outside image p h) in
    subst (λ n. 256 ≤ n) (sym e) (omega arith)

-- The name of the class `Foo` at 16, its type information at 24, and its table from 40 on.
abbrev unix_image : Bytes
unix_image =
    word_bytes 8 1
    ++ (word_bytes 8 1
        ++ (codes "3Foo"
            ++ (word_bytes 4 0
                ++ (word_bytes 8 999
                    ++ (word_bytes 8 16
                        ++ (word_bytes 8 0 ++ (word_bytes 8 24 ++ word_bytes 8 777)))))))

abbrev unix_module : List Section
unix_module =
    record { name = codes ".rodata"; section_base = 16; section_size = 8 }
    ∷ record { name = codes ".data.rel.ro"; section_base = 24; section_size = 40 }
    ∷ []

found_table :
    find_virtual_table_unix (image_memory unix_image) 3 unix_module (codes "Foo") ≡ some (some 56)
unfolding find_virtual_table_unix unix_sections unix_tables find_next scan matches_at get_section
    equal unix_class_name decimal digits_rev
found_table = refl

find_virtual_table_unix-EndsWith_example :
    EndsWith
      (IsUnixTable (image_memory unix_image) unix_module (codes "Foo"))
      (HasNoUnixTable (image_memory unix_image) unix_module (codes "Foo"))
      (find_virtual_table_unix (image_memory unix_image) 65 unix_module (codes "Foo"))
find_virtual_table_unix-EndsWith_example =
    find_virtual_table_unix-EndsWith (image_memory unix_image) unix_module (codes "Foo") 64 65
      (image_memory-EndsAt unix_image) (omega arith)

-- The name of the class `C` at 16, its locator with the signature 1 at 24, and its table at 48.
abbrev windows_image : Bytes
windows_image =
    word_bytes 8 1
    ++ (word_bytes 8 1
        ++ (codes ".?AVC@@"
            ++ (0 ∷ []
                ++ (word_bytes 4 1
                    ++ (word_bytes 4 0
                        ++ (word_bytes 4 5
                            ++ (word_bytes 4 0 ++ (word_bytes 8 24 ++ word_bytes 8 777))))))))

abbrev windows_module : List Section
windows_module =
    record { name = codes ".data"; section_base = 16; section_size = 8 }
    ∷ record { name = codes ".rdata"; section_base = 24; section_size = 32 }
    ∷ []

find_virtual_table_windows-EndsWith_example :
    EndsWith
      (IsWindowsTable (image_memory windows_image) 0 windows_module (codes "C"))
      (HasNoWindowsTable (image_memory windows_image) 0 windows_module (codes "C"))
      (find_virtual_table_windows (image_memory windows_image) 57 0 windows_module (codes "C"))
find_virtual_table_windows-EndsWith_example =
    find_virtual_table_windows-EndsWith (image_memory windows_image) 0 windows_module (codes "C") 56
      57 (image_memory-EndsAt windows_image) (omega arith)

found_locator :
    find_virtual_table_windows (image_memory windows_image) 12 0 windows_module (codes "C")
    ≡ some (some 48)
unfolding find_virtual_table_windows windows_locators find_next scan matches_at get_section equal
    windows_class_name
found_locator = refl

abbrev sample_iterator : SignatureIterator
sample_iterator = new_iterator 0 2 (7 ∷ [])

abbrev sample_memory : Memory
sample_memory = image_memory (5 ∷ 7 ∷ 0 ∷ 7 ∷ [])

find_next_iff_example : IsFirstMatch sample_memory false (7 ∷ []) 0 2 1
unfolding find_next scan matches_at
find_next_iff_example = ((find_next_iff sample_memory false sample_iterator).0 1).0 refl

-- The second search finds a byte behind the section, which ends at 2.
past_the_end :
    (find_next sample_memory false (find_next sample_memory false sample_iterator).1).0 ≡ some 3
unfolding find_next scan matches_at
past_the_end = refl

abbrev library_file : ElfFile
library_file = record {
  has_link_map = true;
  is_opened = true;
  has_size = true;
  is_mapped = true;
  load_address = 4096;
  program_headers =
      record { is_load = true; is_executable = true; virtual_address = 64; file_size = 100 } ∷ [];
  section_headers =
      record { header_name = []; header_address = 0; header_size = 0 }
      ∷ record { header_name = codes ".rodata"; header_address = 32; header_size = 8 }
      ∷ [];
}

abbrev empty_range : ModuleRange
empty_range = record { module_base = 0; module_size = 0; sections = [] }

get_section-get_module_information_example :
    ((get_module_information library_file empty_range).0 ≡ 0)
    × (get_section (get_module_information library_file empty_range).1.sections (codes ".rodata")
        ≡ some (record { name = codes ".rodata"; section_base = 4128; section_size = 8 }))
unfolding first_header equal
get_section-get_module_information_example =
    get_section-get_module_information library_file empty_range (codes ".rodata") refl refl
      (unfold is_empty in refl)

-- A module without a size is reported as read, with nothing written.
unread :
    get_module_information (record library_file { has_size = false }) empty_range ≡ (0, empty_range)
unfolding get_module_information
unread = refl

abbrev code_mapping : Mapping
code_mapping = record {
  start_text = codes "1000";
  end_text = codes "3000";
  permissions = codes "r-xp";
  remainder = codes "00000000";
}

abbrev mappings : List Mapping
mappings = code_mapping ∷ []

mappings-AllMappings : AllMappings mappings
unfolding any_of
mappings-AllMappings = (((refl, omega arith), (refl, omega arith), (refl, omega arith)), tt)

abbrev code_prot : Prot
code_prot = record { readable = true; writable = false; executable = true }

get_prot_first_example : get_prot (map_lines mappings) 4100 2 ≡ some code_prot
unfolding first_enclosing has_char hex_value_from hex_digit
get_prot_first_example = get_prot_first mappings 4100 2 mappings-AllMappings

-- A range that starts where its mapping starts has no bits.
at_the_edge : get_prot (map_lines mappings) 4096 2 ≡ some prot_none
unfolding map_lines get_prot map_fields copy_until hex_value_from hex_digit parse_prot_from
at_the_edge = refl

-- An address of 16 digits leaves its buffer of 16 bytes by the terminator.
wide_address : map_fields (codes "ffffffffff600000-ffffffffff601000 --xp 0") ≡ none
unfolding map_fields copy_until
wide_address = refl

abbrev page_protect : Protect
page_protect a n p pages q = if overlaps 4096 a n q then p else pages q

abbrev code_process : Process
code_process = record { bytes = λ x. 144; pages = λ q. code_prot }

plat_write_memory_restores_example :
    (after : Process) × (plat_write_memory page_protect 4096
        (map_lines mappings)
        4100
        (195 ∷ 0 ∷ [])
        code_process
      ≡ some after)
    × ((x : ℕ) → after.bytes x ≡ patched code_process.bytes 4100 (195 ∷ 0 ∷ []) x)
    × ((q : ℕ) → after.pages q ≡ code_prot)
plat_write_memory_restores_example =
    plat_write_memory_restores page_protect 4096 (map_lines mappings) 4100 (195 ∷ 0 ∷ [])
      code_process code_prot (λ a n p pages q e. refl) (omega arith) get_prot_first_example
      (λ q e. refl)
