-- ===== src/Scanner/Tables.antt =====
-- The loops of the search for a virtual table on Linux: they end, what they find is a table, and
-- where they find none there is none in their windows.
use multi_addon_rss.Addons.{contains}
use multi_addon_rss.Base.{
  ==_iff, Bool-cases, Bytes, List, Option, [], ap, arith, equal, equal_iff, false, if◌then◌else◌,
  inl, inr, ltb, ltb_iff, none, refl, some, subst, suc, sym, true, zero, ℕ, ◌%◌, ◌+◌, ◌<◌, ◌==◌,
  ◌∙◌, ◌∷◌, ◌≡◌, ◌≤◌,
}
use multi_addon_rss.Scanner.{
  Memory, Section, SignatureIterator, back, find_first, forward, get_section, holds_word, if_found,
  new_iterator, word_bytes,
}
use multi_addon_rss.Scanner.Ends.{
  EndsWith, EndsWith-if, EndsWith-if_found, EndsWith-mono, EndsWith-or_else, finds, misses,
}
use multi_addon_rss.Scanner.Search.{
  HasNoMatch, IsFirstMatch, Matches, find_next_cases, first_unique, matches_at_iff, no_match,
  some_injective,
}
use multi_addon_rss.Scanner.Unix.{unix_section, unix_sections, unix_tables}

-- The addresses from `bound` on hold no byte.
abbrev pub EndsAt : Memory → ℕ → Type 0
EndsAt mem bound = (p : ℕ) → bound ≤ p → 256 ≤ mem p

module _ (mem : Memory) where
  pub find_first-IsFirstMatch :
      (s : Section) (bs : Bytes) (a : ℕ)
      → find_first mem s bs ≡ some a
      → IsFirstMatch mem false bs s.section_base s.section_size a
  find_first-IsFirstMatch s bs a h =
      elim (find_next_cases mem false (new_iterator s.section_base s.section_size bs)) [
        | inl (e, n) ↦
            absurd (ground (arith, sym (ap (λ (r : Option ℕ × SignatureIterator). r.0) e) ∙ h))
        | inr (b, e, f) ↦
            subst (λ c. IsFirstMatch mem false bs s.section_base s.section_size c)
              (some_injective (sym (ap (λ (r : Option ℕ × SignatureIterator). r.0) e) ∙ h)) f
      ]

  pub find_first-HasNoMatch :
      (s : Section) (bs : Bytes)
      → find_first mem s bs ≡ none
      → HasNoMatch mem false bs s.section_base s.section_size
  find_first-HasNoMatch s bs h =
      elim (find_next_cases mem false (new_iterator s.section_base s.section_size bs)) [
        | inl (e, n) ↦ n
        | inr (b, e, f) ↦
            absurd (ground (arith, sym (ap (λ (r : Option ℕ × SignatureIterator). r.0) e) ∙ h))
      ]

  pub missed_first :
      (s t : Section) (bs : Bytes) (a : ℕ)
      → find_first mem s bs ≡ none
      → s ≡ t
      → ¬ IsFirstMatch mem false bs t.section_base t.section_size a
  missed_first s t bs a h e (low, high, match, before) =
      subst (λ (s : Section). HasNoMatch mem false bs s.section_base s.section_size) e
        (find_first-HasNoMatch s bs h) a low high match

  pub same_first :
      (s t : Section) (bs : Bytes) (a b : ℕ)
      → find_first mem s bs ≡ some a
      → s ≡ t
      → IsFirstMatch mem false bs t.section_base t.section_size b
      → a ≡ b
  same_first s t bs a b h e f =
      first_unique mem false bs t.section_base t.section_size a b
        (subst (λ (s : Section). IsFirstMatch mem false bs s.section_base s.section_size a) e
          (find_first-IsFirstMatch s bs a h))
        f

  pub match_below :
      (bound k n a : ℕ) → EndsAt mem bound → Matches mem false a (word_bytes (suc k) n) → a < bound
  match_below bound k n a ends m =
      let first = m 0 (n % 256) refl in
      elim (Bool-cases (ltb a bound)) [
        | inl e ↦ (ltb_iff a bound).0 e
        | inr e ↦ absurd (ground (arith, ends (a + 0), first))
      ]

  -- The type information stands at the word before `v`, with the offset 0 before it.
  abbrev pub IsTableOf : ℕ → ℕ → Type 0
  IsTableOf type_info v =
      (t : ℕ) × Matches mem false t (word_bytes 8 type_info)
      × Matches mem false (back t 8) (word_bytes 8 0)
      × (v ≡ forward t 8)

  -- No address of a window has the type information there with the offset 0 before it.
  abbrev pub HasNoTable : ℕ → ℕ → ℕ → Type 0
  HasNoTable type_info p n =
      (t : ℕ)
      → p ≤ t
      → t < p + n
      → Matches mem false t (word_bytes 8 type_info)
      → ¬ Matches mem false (back t 8) (word_bytes 8 0)

  -- The same of the windows of the sections of a list of names.
  abbrev pub HasNoTableIn : List Section → ℕ → List Bytes → Type 0
  HasNoTableIn sections type_info names =
      (name : Bytes) (s : Section)
      → contains name names ≡ true
      → get_section sections name ≡ some s
      → HasNoTable type_info s.section_base s.section_size

  unix_tables-EndsWith :
      (bound type_info fuel : ℕ) (it : SignatureIterator)
      → EndsAt mem bound
      → it.signature ≡ word_bytes 8 type_info
      → 0 < fuel
      → bound < fuel + it.current
      → EndsWith
          (IsTableOf type_info)
          (HasNoTable type_info it.current it.size)
          (unix_tables mem fuel it)
  unfolding unix_tables
  unix_tables-EndsWith bound type_info zero it ends s pos enough = absurd (omega (arith, pos))
  unix_tables-EndsWith bound type_info (suc fuel) it ends s pos enough =
      let Goal : Option ℕ × SignatureIterator → Type 0 = λ r.
        EndsWith (IsTableOf type_info) (HasNoTable type_info it.current it.size) (
          if_found r.0 λ p.
            if holds_word mem 8 (back p 8) 0
            then some (some (forward p 8))
            else unix_tables mem fuel r.1) in
      elim (find_next_cases mem false it) [
        | inl (e, n) ↦
            subst Goal (sym e)
              (misses λ t l h m. absurd (n t l h (subst (Matches mem false t) (sym s) m)))
        | inr (a, e, (low, high, match, before)) ↦
            let found = subst (Matches mem false a) s match in
            let inside = match_below bound 7 type_info a ends found in
            let next = record it { current = a + 1 } in
            subst Goal (sym e) (
              EndsWith-if (holds_word mem 8 (back a 8) 0) (some (some (forward a 8)))
                (unix_tables mem fuel next)
                (λ k.
                  finds
                    (a, found, (matches_at_iff mem false (back a 8) (word_bytes 8 0)).0 k, refl))
                λ k.
                  EndsWith-mono (unix_tables mem fuel next)
                    (unix_tables-EndsWith bound type_info fuel next ends s
                      (omega (arith, enough, low, inside)) (omega (arith, enough, low)))
                    (λ v p. p)
                    λ none_behind t l h m. elim (Bool-cases (ltb t a)) [
                      | inl x ↦
                          absurd
                            (before t l (ground (arith, x)) (subst (Matches mem false t) (sym s) m))
                      | inr x ↦ elim (Bool-cases (t == a)) [
                        | inl y ↦
                            subst (λ t. ¬ Matches mem false (back t 8) (word_bytes 8 0))
                              (sym ((==_iff t a).0 y))
                              (no_match mem false (back a 8) (word_bytes 8 0) k)
                        | inr y ↦ none_behind t (ground (arith, x, y)) (omega (arith, h, low)) m
                      ]
                    ])
      ]

  HasNoTableIn-cons :
      (type_info : ℕ) (sections : List Section) (name : Bytes) (names : List Bytes)
      → ((s : Section)
          → get_section sections name ≡ some s
          → HasNoTable type_info s.section_base s.section_size)
      → HasNoTableIn sections type_info names
      → HasNoTableIn sections type_info (name ∷ names)
  unfolding contains
  HasNoTableIn-cons type_info sections name names first more other s listed e =
      elim (Bool-cases (equal name other)) [
        | inl k ↦ first s (ap (get_section sections) ((equal_iff name other).0 k) ∙ e)
        | inr k ↦ more other s (ground (arith, listed, k)) e
      ]

  pub unix_sections-EndsWith :
      (bound type_info fuel : ℕ) (sections : List Section) (names : List Bytes)
      → EndsAt mem bound
      → bound < fuel
      → EndsWith
          (IsTableOf type_info)
          (HasNoTableIn sections type_info names)
          (unix_sections mem fuel sections type_info names)
  unfolding unix_sections contains
  unix_sections-EndsWith bound type_info fuel sections [] ends enough =
      misses λ name s listed e. absurd (ground (arith, listed))
  unix_sections-EndsWith bound type_info fuel sections (name ∷ names) ends enough =
      EndsWith-mono (unix_sections mem fuel sections type_info (name ∷ names))
        (EndsWith-or_else (unix_section mem fuel (get_section sections name) type_info)
          (unix_sections mem fuel sections type_info names)
          (EndsWith-if_found
            {N = (s : Section)
              → get_section sections name ≡ some s
              → HasNoTable type_info s.section_base s.section_size}
            (get_section sections name) _ (λ e s k. absurd (ground (arith, sym e ∙ k)))
            λ s e.
              EndsWith-mono _
                (unix_tables-EndsWith bound type_info fuel
                  (new_iterator s.section_base s.section_size (word_bytes 8 type_info)) ends refl
                  (omega (arith, enough)) (omega (arith, enough)))
                (λ v p. p)
                λ n s' k.
                  subst (λ (s : Section). HasNoTable type_info s.section_base s.section_size)
                    (some_injective (sym e ∙ k)) n)
          (unix_sections-EndsWith bound type_info fuel sections names ends enough))
        (λ v p. p) λ (first, more). HasNoTableIn-cons type_info sections name names first more
