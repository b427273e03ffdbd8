-- ===== src/Scanner/WindowsTables.antt =====
-- `FindVirtualTable` on Windows finds a table that a complete object locator of the class has.
use multi_addon_rss.Base.{
  ==_iff, Bool-cases, Bytes, List, Option, arith, codes, false, if◌then◌else◌, inl, inr, ltb, not,
  refl, some, subst, suc, sym, true, zero, ℕ, ◌+◌, ◌<◌, ◌==◌, ◌∙◌, ◌≡◌, ◌≤◌, ◌⊎◌,
}
use multi_addon_rss.Scanner.{
  Memory, Section, SignatureIterator, back, find_first, forward, get_section, if_found,
  new_iterator, word_bytes,
}
use multi_addon_rss.Scanner.Ends.{
  EndsWith, EndsWith-if, EndsWith-if_found, EndsWith-mono, finds, misses,
}
use multi_addon_rss.Scanner.Search.{
  HasNoMatch, IsFirstMatch, Matches, find_next_cases, matches_at_iff, some_injective,
}
use multi_addon_rss.Scanner.Tables.{
  EndsAt, find_first-HasNoMatch, find_first-IsFirstMatch, match_below, missed_first, same_first,
}
use multi_addon_rss.Scanner.Windows.{
  find_virtual_table_windows, is_locator, windows_class_name, windows_locators,
}

module _ (mem : Memory) where
  -- A complete object locator whose type descriptor has the relative address `rva` has it at `p`,
  -- with the signature 1 and the offset 0 before it.
  abbrev pub IsLocator : ℕ → ℕ → Type 0
  IsLocator rva p =
      Matches mem false p (word_bytes 4 rva)
      × Matches mem false (back p 12) (word_bytes 4 1)
      × Matches mem false (back p 8) (word_bytes 4 0)

  -- `v` is behind the first pointer of the section to a locator.
  abbrev pub IsLocatedTable : Section → ℕ → ℕ → Type 0
  IsLocatedTable constants rva v =
      (p t : ℕ) × IsLocator rva p
      × IsFirstMatch mem false (word_bytes 8 (back p 12)) constants.section_base
          constants.section_size t
      × (v ≡ forward t 8)

  -- No locator in a window, or one that no pointer of the section points to.
  abbrev pub HasNoLocatedTable : Section → ℕ → ℕ → ℕ → Type 0
  HasNoLocatedTable constants rva p n =
      ((q : ℕ) → p ≤ q → q < p + n → ¬ IsLocator rva q)
      ⊎ ((q : ℕ) × IsLocator rva q
          × HasNoMatch mem false (word_bytes 8 (back q 12)) constants.section_base
              constants.section_size)

  is_locator-IsLocator :
      (rva p : ℕ)
      → Matches mem false p (word_bytes 4 rva)
      → is_locator mem p ≡ true
      → IsLocator rva p
  is_locator-IsLocator rva p m h = (
    m,
    (matches_at_iff mem false (back p 12) (word_bytes 4 1)).0 (ground arith),
    (matches_at_iff mem false (back p 8) (word_bytes 4 0)).0 (ground arith),
  )

  not-IsLocator : (rva p : ℕ) → is_locator mem p ≡ false → ¬ IsLocator rva p
  not-IsLocator rva p h (m, one, zero_offset) = ground (
    arith,
    (matches_at_iff mem false (back p 12) (word_bytes 4 1)).1 one,
    (matches_at_iff mem false (back p 8) (word_bytes 4 0)).1 zero_offset,
    h,
  )

  windows_locators-EndsWith :
      (bound rva fuel : ℕ) (constants : Section) (it : SignatureIterator)
      → EndsAt mem bound
      → it.signature ≡ word_bytes 4 rva
      → 0 < fuel
      → bound < fuel + it.current
      → EndsWith
          (IsLocatedTable constants rva)
          (HasNoLocatedTable constants rva it.current it.size)
          (windows_locators mem fuel constants it)
  unfolding windows_locators
  windows_locators-EndsWith bound rva zero constants it ends s pos enough =
      absurd (omega (arith, pos))
  windows_locators-EndsWith bound rva (suc fuel) constants it ends s pos enough =
      let Goal : Option ℕ × SignatureIterator → Type 0 = λ r.
        EndsWith (IsLocatedTable constants rva) (HasNoLocatedTable constants rva it.current it.size)
          (if_found r.0 λ p.
            if not (is_locator mem p)
            then windows_locators mem fuel constants r.1
            else if_found (find_first mem constants (word_bytes 8 (back p 12)))
                λ table. some (some (forward table 8))) in
      elim (find_next_cases mem false it) [
        | inl (e, n) ↦ subst Goal (sym e) (
            misses (inl (λ q l h located. n q l h (subst (Matches mem false q) (sym s) located.0))))
        | inr (a, e, (low, high, match, before)) ↦
            let found = subst (Matches mem false a) s match in
            let inside = match_below mem bound 3 rva a ends found in
            let next = record it { current = a + 1 } in
            let pointer = word_bytes 8 (back a 12) in
            subst Goal (sym e) (
              EndsWith-if (not (is_locator mem a)) (windows_locators mem fuel constants next) _
                (λ k.
                  EndsWith-mono (windows_locators mem fuel constants next)
                    (windows_locators-EndsWith bound rva fuel constants next ends s
                      (omega (arith, enough, low, inside)) (omega (arith, enough, low)))
                    (λ v p. p)
                    λ n. elim n [
                      | inl none_behind ↦ inl λ q l h. elim (Bool-cases (ltb q a)) [
                        | inl x ↦ λ located.
                            before q l (ground (arith, x))
                              (subst (Matches mem false q) (sym s) located.0)
                        | inr x ↦ elim (Bool-cases (q == a)) [
                          | inl y ↦
                              subst (λ q. ¬ IsLocator rva q) (sym ((==_iff q a).0 y))
                                (not-IsLocator rva a (ground (arith, k)))
                          | inr y ↦ none_behind q (ground (arith, x, y)) (omega (arith, h, low))
                        ]
                      ]
                      | inr other ↦ inr other
                    ])
                λ k.
                  let here = is_locator-IsLocator rva a found (ground (arith, k)) in
                  EndsWith-if_found (find_first mem constants pointer) _
                    (λ none_found.
                      inr (a, here, find_first-HasNoMatch mem constants pointer none_found))
                    λ t f.
                      finds (a, t, here, find_first-IsFirstMatch mem constants pointer t f, refl))
      ]

-- The address of the type descriptor of a class from the base of the module on.
abbrev pub descriptor_rva : ℕ → ℕ → ℕ
descriptor_rva module_base class_name = back (back class_name 16) module_base

module _ (mem : Memory) (module_base : ℕ) (sections : List Section) (name : Bytes) where
  -- The sections are there, and the name of the class has its first match in `.data` at `class_name`.
  abbrev pub IsNamed : Section → ℕ → Type 0
  IsNamed constants class_name =
      (data_section : Section) × (get_section sections (codes ".data") ≡ some data_section)
      × (get_section sections (codes ".rdata") ≡ some constants)
      × IsFirstMatch mem false (windows_class_name name) data_section.section_base
          data_section.section_size class_name

  -- The result is the table of a locator of the class.
  abbrev pub IsWindowsTable : ℕ → Type 0
  IsWindowsTable v =
      (constants : Section) × (class_name : ℕ) × IsNamed constants class_name
      × IsLocatedTable mem constants (descriptor_rva module_base class_name) v

  -- Where the class has a name, no locator of it, or one without a table.
  abbrev pub HasNoWindowsTable : Type 0
  HasNoWindowsTable =
      (constants : Section) (class_name : ℕ)
      → IsNamed constants class_name
      → HasNoLocatedTable mem constants (descriptor_rva module_base class_name)
          constants.section_base constants.section_size

  -- On a memory without bytes from a bound on, with more fuel than the bound, the search for a
  -- virtual table on Windows ends: an address that it finds is behind the first pointer in `.rdata`
  -- to a complete object locator of the class, and where it finds none, a class whose name is found
  -- has no locator in the window of `.rdata`, or one that no pointer of it points to.
  pub find_virtual_table_windows-EndsWith :
      (bound fuel : ℕ)
      → EndsAt mem bound
      → bound < fuel
      → EndsWith IsWindowsTable HasNoWindowsTable
          (find_virtual_table_windows mem fuel module_base sections name)
  unfolding find_virtual_table_windows
  find_virtual_table_windows-EndsWith bound fuel ends enough =
      EndsWith-if_found (get_section sections (codes ".data")) _
        (λ e c n (d, dl, cl, f). absurd (ground (arith, sym e ∙ dl)))
        λ data_section d.
          EndsWith-if_found (get_section sections (codes ".rdata")) _
            (λ e c n (d, dl, cl, f). absurd (ground (arith, sym e ∙ cl)))
            λ constants c.
              EndsWith-if_found (find_first mem data_section (windows_class_name name)) _
                (λ e c' n (d', dl, cl, f). absurd (
                  missed_first mem data_section d' (windows_class_name name) n e
                    (some_injective (sym d ∙ dl)) f))
                λ class_name n.
                  EndsWith-mono _
                    (windows_locators-EndsWith mem bound (descriptor_rva module_base class_name)
                      fuel constants
                      (new_iterator constants.section_base constants.section_size
                        (word_bytes 4 (descriptor_rva module_base class_name)))
                      ends refl (omega (arith, enough)) (omega (arith, enough)))
                    (λ v p. (
                      constants,
                      class_name,
                      (
                        data_section,
                        d,
                        c,
                        find_first-IsFirstMatch mem data_section (windows_class_name name)
                            class_name n,
                      ),
                      p,
                    ))
                    λ h c' n' (d', dl, cl, f).
                      let same_name : class_name ≡ n' =
                        same_first mem data_section d' (windows_class_name name) class_name n' n
                          (some_injective (sym d ∙ dl)) f in
                      let same_section : constants ≡ c' = some_injective (sym c ∙ cl) in
                      subst
                        (λ k.
                          HasNoLocatedTable mem c' (descriptor_rva module_base k) c'.section_base
                            c'.section_size)
                        same_name
                        (subst
                          (λ (s : Section).
                            HasNoLocatedTable mem s (descriptor_rva module_base class_name)
                              s.section_base s.section_size)
                          same_section h)
