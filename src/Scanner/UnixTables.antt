-- ===== src/Scanner/UnixTables.antt =====
-- `FindVirtualTable` on Linux finds a table of the class, and one if there is one in its windows.
use multi_addon_rss.Addons.{contains}
use multi_addon_rss.Base.{
  Bytes, List, [], arith, codes, false, some, subst, sym, true, ℕ, ◌+◌, ◌<◌, ◌∙◌, ◌∷◌, ◌≡◌, ◌≤◌,
}
use multi_addon_rss.Scanner.{Memory, Section, back, find_first, forward, get_section, word_bytes}
use multi_addon_rss.Scanner.Ends.{EndsWith, EndsWith-if_found, EndsWith-mono}
use multi_addon_rss.Scanner.Search.{IsFirstMatch, Matches, some_injective}
use multi_addon_rss.Scanner.Tables.{
  EndsAt, find_first-IsFirstMatch, missed_first, same_first, unix_sections-EndsWith,
}
use multi_addon_rss.Scanner.Unix.{find_virtual_table_unix, unix_class_name}

-- `v` is the address of the functions of a virtual table of the class: the name of the class stands
-- in `.rodata`, a pointer to it in `.data.rel.ro`, a pointer to the type information that has this
-- pointer as its second word stands before `v`, and before it the offset 0.
pub record IsUnixTable (mem : Memory) (sections : List Section) (name : Bytes) (v : ℕ)
    : Type 0 where
  pub class_name : ℕ
  pub type_name : ℕ
  pub table : ℕ
  pub constants : Section
  pub relocations : Section
  pub constants_listed : get_section sections (codes ".rodata") ≡ some constants
  pub relocations_listed : get_section sections (codes ".data.rel.ro") ≡ some relocations
  pub class_name_first :
      IsFirstMatch mem false
        (unix_class_name name)
        constants.section_base
        constants.section_size
        class_name
  pub type_name_first :
      IsFirstMatch mem false
        (word_bytes 8 class_name)
        relocations.section_base
        relocations.section_size
        type_name
  pub table_matches : Matches mem false table (word_bytes 8 (back type_name 8))
  pub offset_matches : Matches mem false (back table 8) (word_bytes 8 0)
  pub functions : v ≡ forward table 8

-- No table of the class lies in the windows of the sections that may hold it.
abbrev pub HasNoUnixTable : Memory → List Section → Bytes → Type 0
HasNoUnixTable mem sections name =
    (v : ℕ) (u : IsUnixTable mem sections name v) (where_name : Bytes) (s : Section)
    → contains where_name (codes ".data.rel.ro" ∷ codes ".data.rel.ro.local" ∷ []) ≡ true
    → get_section sections where_name ≡ some s
    → s.section_base ≤ u.table
    → ¬ (u.table < s.section_base + s.section_size)

module _ (mem : Memory) (sections : List Section) (name : Bytes) where
  -- The name that is found is the one of a table `u`, and a pointer to the one is one to the other.
  same_class :
      (constants : Section) (class_name v : ℕ) (u : IsUnixTable mem sections name v)
      → get_section sections (codes ".rodata") ≡ some constants
      → find_first mem constants (unix_class_name name) ≡ some class_name
      → class_name ≡ u.class_name
  same_class constants class_name v u c n =
      same_first mem constants u.constants (unix_class_name name) class_name u.class_name n
        (some_injective (sym c ∙ u.constants_listed)) u.class_name_first

  type_name_of :
      (class_name v : ℕ) (u : IsUnixTable mem sections name v)
      → class_name ≡ u.class_name
      → IsFirstMatch mem false
          (word_bytes 8 class_name)
          u.relocations.section_base
          u.relocations.section_size
          u.type_name
  type_name_of class_name v u e =
      subst
        (λ c.
          IsFirstMatch mem false (word_bytes 8 c) u.relocations.section_base
            u.relocations.section_size u.type_name)
        (sym e) u.type_name_first

  -- On a memory without bytes from a bound on, with more fuel than the bound, the search for a
  -- virtual table on Linux ends: an address that it finds is behind the offset 0 and a pointer to
  -- the type information of the class, and where it finds none no such pointer lies in the windows
  -- of the two sections.
  pub find_virtual_table_unix-EndsWith :
      (bound fuel : ℕ)
      → EndsAt mem bound
      → bound < fuel
      → EndsWith
          (IsUnixTable mem sections name)
          (HasNoUnixTable mem sections name)
          (find_virtual_table_unix mem fuel sections name)
  unfolding find_virtual_table_unix
  find_virtual_table_unix-EndsWith bound fuel ends enough =
      EndsWith-if_found (get_section sections (codes ".rodata")) _
        (λ e v u. absurd (ground (arith, sym e ∙ u.constants_listed)))
        λ constants c.
          EndsWith-if_found (get_section sections (codes ".data.rel.ro")) _
            (λ e v u. absurd (ground (arith, sym e ∙ u.relocations_listed)))
            λ relocations r.
              EndsWith-if_found (find_first mem constants (unix_class_name name)) _
                (λ e v u. absurd (
                  missed_first mem constants u.constants (unix_class_name name) u.class_name e
                    (some_injective (sym c ∙ u.constants_listed)) u.class_name_first))
                λ class_name n.
                  EndsWith-if_found (find_first mem relocations (word_bytes 8 class_name)) _
                    (λ e v u. absurd (
                      missed_first mem relocations u.relocations (word_bytes 8 class_name)
                        u.type_name e (some_injective (sym r ∙ u.relocations_listed))
                        (type_name_of class_name v u (same_class constants class_name v u c n))))
                    λ type_name t.
                      EndsWith-mono _
                        (unix_sections-EndsWith mem bound (back type_name 8) fuel sections _ ends
                          enough)
                        (λ v p. record {
                          class_name = class_name;
                          type_name = type_name;
                          table = p.0;
                          constants = constants;
                          relocations = relocations;
                          constants_listed = c;
                          relocations_listed = r;
                          class_name_first =
                              find_first-IsFirstMatch mem constants (unix_class_name name)
                                class_name n;
                          type_name_first =
                              find_first-IsFirstMatch mem relocations (word_bytes 8 class_name)
                                type_name t;
                          table_matches = p.1;
                          offset_matches = p.2;
                          functions = p.3;
                        })
                        λ none_in v u where_name s listed e low high.
                          let one =
                            type_name_of class_name v u (same_class constants class_name v u c n) in
                          let two : type_name ≡ u.type_name =
                            same_first mem relocations u.relocations (word_bytes 8 class_name)
                              type_name u.type_name t
                              (some_injective (sym r ∙ u.relocations_listed)) one in
                          none_in where_name s listed e u.table low high
                            (subst (λ k. Matches mem false u.table (word_bytes 8 (back k 8)))
                              (sym two) u.table_matches)
                            u.offset_matches
