-- ===== src/Scanner/Modules.antt =====
-- What a loaded module consists of: `GetModuleInformation` of src/utils/plat_unix.cpp, on the headers
-- of the ELF file, and `InitializeSections` of src/utils/plat_win.cpp.
use multi_addon_rss.Addons.{is_empty}
use multi_addon_rss.Base.{
  Bool, Bytes, List, [], if◌then◌else◌, not, ℕ, ◌%◌, ◌&&◌, ◌++◌, ◌+◌, ◌^◌, ◌||◌, ◌∷◌,
}
use multi_addon_rss.Scanner.{Section}

-- A program header, with whether it is a `PT_LOAD` and has `PF_X`.
pub record ProgramHeader : Type 0 where
  pub is_load : Bool
  pub is_executable : Bool
  pub virtual_address : ℕ
  pub file_size : ℕ

-- A section header, with its name in the table of strings.
pub record SectionHeader : Type 0 where
  pub header_name : Bytes
  pub header_address : ℕ
  pub header_size : ℕ

-- What the calls of the system answer, and the file as it is mapped: the answers of `dlinfo`, `open`,
-- `fstat` and `mmap`, and the headers that the map holds.
pub record ElfFile : Type 0 where
  pub has_link_map : Bool
  pub is_opened : Bool
  pub has_size : Bool
  pub is_mapped : Bool
  pub load_address : ℕ
  pub program_headers : List ProgramHeader
  pub section_headers : List SectionHeader

-- What `GetModuleInformation` writes: the base, the length and the sections.
pub record ModuleRange : Type 0 where
  pub module_base : ℕ
  pub module_size : ℕ
  pub sections : List Section

-- The loop over the program headers, which stops at the first that is loaded and executable.
unfoldable pub code_range : ℕ → List ProgramHeader → ModuleRange → ModuleRange
code_range load [] m = m
code_range load (h ∷ hs) m =
    let rest = code_range load hs m in
    if h.is_load && h.is_executable
    then record m { module_base = (load + h.virtual_address) % 2 ^ 64; module_size = h.file_size }
    else rest

-- The loop over the section headers, which skips those without a name.
unfoldable pub collect_sections : ℕ → List SectionHeader → List Section → List Section
collect_sections load [] found = found
collect_sections load (h ∷ hs) found =
    let section : Section = record {
      name = h.header_name;
      section_base = (load + h.header_address) % 2 ^ 64;
      section_size = h.header_size;
    } in
    collect_sections load hs (if is_empty h.header_name then found else found ++ section ∷ [])

-- `GetModuleInformation`: the error code, and what is written.
unfoldable pub get_module_information : ElfFile → ModuleRange → ℕ × ModuleRange
get_module_information f m =
    let ranged = code_range f.load_address f.program_headers m in
    if not f.has_link_map
    then (1, m)
    else if not f.is_opened
    then (2, m)
    else if not f.has_size || not f.is_mapped
    then (0, m)
    else (
      0,
      record ranged {
        sections = collect_sections f.load_address f.section_headers ranged.sections;
      },
    )

-- `InitializeSections` on Windows, where a section header has its address in the image, and the size
-- of its data.
unfoldable pub initialize_sections : ℕ → List SectionHeader → List Section → List Section
initialize_sections base [] found = found
initialize_sections base (h ∷ hs) found =
    let section : Section = record {
      name = h.header_name;
      section_base = (base + h.header_address) % 2 ^ 64;
      section_size = h.header_size;
    } in
    initialize_sections base hs (found ++ section ∷ [])
