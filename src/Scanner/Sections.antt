-- ===== src/Scanner/Sections.antt =====
-- The section of a name in a module that was read is the one of the first header of the name.
use multi_addon_rss.Addons.{is_empty}
use multi_addon_rss.Base.{
  Bool, Bool-cases, Bytes, List, Option, [], ap, arith, equal, false, if◌then◌else◌, inl, inr, none,
  refl, some, true, ℕ, ◌%◌, ◌&&◌, ◌++◌, ◌+◌, ◌^◌, ◌∙◌, ◌∷◌, ◌≡◌,
}
use multi_addon_rss.Scanner.{Section, get_section}
use multi_addon_rss.Scanner.Modules.{
  ElfFile, ModuleRange, ProgramHeader, SectionHeader, code_range, collect_sections,
  get_module_information,
}

unfoldable pub first_header : List SectionHeader → Bytes → Option SectionHeader
first_header [] name = none
first_header (h ∷ hs) name =
    let rest = first_header hs name in if equal h.header_name name then some h else rest

-- The section of a header, in a module that was loaded at an address.
abbrev pub section_of : ℕ → Option SectionHeader → Option Section
section_of load none = none
section_of load (some h) = some (record {
  name = h.header_name;
  section_base = (load + h.header_address) % 2 ^ 64;
  section_size = h.header_size;
})

abbrev first_of : Option Section → Option Section → Option Section
first_of none r = r
first_of (some s) r = some s

get_section-snoc :
    (ss : List Section) (s : Section) (name : Bytes)
    → get_section (ss ++ s ∷ []) name
      ≡ first_of (get_section ss name) (if equal s.name name then some s else none)
unfolding get_section
get_section-snoc [] s name = ground arith
get_section-snoc (t ∷ ss) s name = elim (Bool-cases (equal t.name name)) [
  | inl e ↦ rw e refl
  | inr e ↦ rw e (get_section-snoc ss s name)
]

first_of_assoc : (a b c : Option Section) → first_of (first_of a b) c ≡ first_of a (first_of b c)
first_of_assoc none b c = refl
first_of_assoc (some s) b c = refl

first_of-none : (a : Option Section) → a ≡ first_of a none
first_of-none none = refl
first_of-none (some s) = refl

equal_nameless : (a name : Bytes) → is_empty a ≡ true → is_empty name ≡ false → equal a name ≡ false
unfolding equal is_empty
equal_nameless [] [] h k = absurd (ground arith)
equal_nameless [] (c ∷ name) h k = refl
equal_nameless (c ∷ a) name h k = absurd (ground arith)

section_of_if :
    (load : ℕ) (b : Bool) (h : SectionHeader) (r : Option SectionHeader)
    → first_of (if b then section_of load (some h) else none) (section_of load r)
      ≡ section_of load (if b then some h else r)
section_of_if load true h r = refl
section_of_if load false h r = refl

code_range_sections :
    (load : ℕ) (hs : List ProgramHeader) (m : ModuleRange)
    → (code_range load hs m).sections ≡ m.sections
unfolding code_range
code_range_sections load [] m = refl
code_range_sections load (h ∷ hs) m = ground (arith, code_range_sections load hs m)

get_section-collect :
    (load : ℕ) (hs : List SectionHeader) (found : List Section) (name : Bytes)
    → is_empty name ≡ false
    → get_section (collect_sections load hs found) name
      ≡ first_of (get_section found name) (section_of load (first_header hs name))
unfolding collect_sections first_header
get_section-collect load [] found name k = first_of-none (get_section found name)
get_section-collect load (h ∷ hs) found name k =
    let s : Section = record {
      name = h.header_name;
      section_base = (load + h.header_address) % 2 ^ 64;
      section_size = h.header_size;
    } in
    let here = if equal h.header_name name then some s else none in
    elim (Bool-cases (is_empty h.header_name)) [
      | inl e ↦
          rw (e, equal_nameless h.header_name name e k) (get_section-collect load hs found name k)
      | inr e ↦ rw e (
          get_section-collect load hs (found ++ s ∷ []) name k
          ∙ ap (λ r. first_of r (section_of load (first_header hs name)))
              (get_section-snoc found s name)
          ∙ first_of_assoc (get_section found name) here (section_of load (first_header hs name))
          ∙ ap (first_of (get_section found name))
              (section_of_if load (equal h.header_name name) h (first_header hs name)))
    ]

module _ (f : ElfFile) (m : ModuleRange) where
  get_module_information_ok :
      f.has_link_map && (f.is_opened && (f.has_size && f.is_mapped)) ≡ true
      → get_module_information f m ≡ (
        0,
        (let ranged = code_range f.load_address f.program_headers m in
            record ranged {
              sections = collect_sections f.load_address f.section_headers ranged.sections;
            }),
      )
  unfolding get_module_information
  get_module_information_ok h = ground arith

  -- Where the file of a module is opened and mapped, `GetModuleInformation` succeeds, and
  -- `GetSection` on what it collects from none finds for a name that is not empty the section of the
  -- first header of the name, at the address where the module was loaded.
  pub get_section-get_module_information :
      (name : Bytes)
      → f.has_link_map && (f.is_opened && (f.has_size && f.is_mapped)) ≡ true
      → m.sections ≡ []
      → is_empty name ≡ false
      → ((get_module_information f m).0 ≡ 0)
        × (get_section (get_module_information f m).1.sections name
            ≡ section_of f.load_address (first_header f.section_headers name))
  unfolding get_section
  get_section-get_module_information name succeeds none_yet k =
      let ranged = code_range f.load_address f.program_headers m in
      let written = record ranged {
        sections = collect_sections f.load_address f.section_headers ranged.sections;
      } in
      let whole : get_module_information f m ≡ (0, written) = get_module_information_ok succeeds in
      (
        ap (λ (r : ℕ × ModuleRange). r.0) whole,
        ap (λ (r : ℕ × ModuleRange). get_section r.1.sections name) whole
            ∙ get_section-collect f.load_address f.section_headers ranged.sections name k
            ∙ ap
                (λ ss.
                  first_of (get_section ss name)
                    (section_of f.load_address (first_header f.section_headers name)))
                (code_range_sections f.load_address f.program_headers m ∙ none_yet),
      )
