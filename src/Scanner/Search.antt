-- ===== src/Scanner/Search.antt =====
-- `FindNext` finds the first match of its window.
use multi_addon_rss.Base.{
  ==_iff, Bool, Bool-cases, Bytes, Option, Option-cases, [], ap, arith, false, get_elem?, inl, inr,
  ltb, none, refl, some, subst, suc, sym, true, zero, ℕ, ◌+◌, ◌<◌, ◌==◌, ◌↔◌, ◌∙◌, ◌∷◌, ◌≡◌, ◌≤◌,
  ◌⊎◌,
}
use multi_addon_rss.Scanner.{Memory, SignatureIterator, advance, find_next, matches_at, scan}

-- The bytes from `p` on are those of the signature, where it has no wildcard that is allowed.
abbrev pub Matches : Memory → Bool → ℕ → Bytes → Type 0
Matches mem wild p bs =
    (i b : ℕ) → get_elem? bs i ≡ some b → (mem (p + i) ≡ b) ⊎ ((wild ≡ true) × (b ≡ 42))

-- `a` is the first address of the window of `n` addresses from `p` on where the signature matches.
abbrev pub IsFirstMatch : Memory → Bool → Bytes → ℕ → ℕ → ℕ → Type 0
IsFirstMatch mem wild bs p n a =
    (p ≤ a)
    × (a < p + n)
    × Matches mem wild a bs
    × ((q : ℕ) → p ≤ q → q < a → ¬ Matches mem wild q bs)

-- No address of the window has a match.
abbrev pub HasNoMatch : Memory → Bool → Bytes → ℕ → ℕ → Type 0
HasNoMatch mem wild bs p n = (q : ℕ) → p ≤ q → q < p + n → ¬ Matches mem wild q bs

pub some_injective {ℓ} : {A : Type ℓ} {a b : A} → some a ≡ some b → a ≡ b
some_injective {a = a} e = ap (λ o. elim o [ none ↦ a | some x ↦ x ]) e

module _ (mem : Memory) (wild : Bool) where
  -- A byte of memory that fits a byte of the signature.
  abbrev Fits : ℕ → ℕ → Type 0
  Fits p b = (mem p ≡ b) ⊎ ((wild ≡ true) × (b ≡ 42))

  matches_at-Matches :
      (p : ℕ) (bs : Bytes) → matches_at mem wild p bs ≡ true → Matches mem wild p bs
  unfolding matches_at
  matches_at-Matches p [] h i b e = absurd (ground arith)
  matches_at-Matches p (c ∷ bs) h zero b e = grind arith
  matches_at-Matches p (c ∷ bs) h (suc i) b e =
      subst (λ k. Fits k b) (omega arith) (matches_at-Matches (p + 1) bs (ground arith) i b e)

  Matches-matches_at :
      (p : ℕ) (bs : Bytes) → Matches mem wild p bs → matches_at mem wild p bs ≡ true
  unfolding matches_at
  Matches-matches_at p [] h = refl
  Matches-matches_at p (c ∷ bs) h =
      let first : Fits p c = subst (λ k. Fits k c) (omega arith) (h 0 c refl) in
      let more =
        Matches-matches_at (p + 1) bs
          (λ i b e. subst (λ k. Fits k b) (omega arith) (h (suc i) b e)) in
      ground (arith, first, more)

  -- x
  pub matches_at_iff :
      (p : ℕ) (bs : Bytes) → (matches_at mem wild p bs ≡ true) ↔ Matches mem wild p bs
  matches_at_iff p bs = (matches_at-Matches p bs, Matches-matches_at p bs)

  pub no_match : (p : ℕ) (bs : Bytes) → matches_at mem wild p bs ≡ false → ¬ Matches mem wild p bs
  no_match p bs h m = ground (arith, Matches-matches_at p bs m)

  module _ (bs : Bytes) where
    scan-IsFirstMatch : (p n a : ℕ) → scan mem wild bs p n ≡ some a → IsFirstMatch mem wild bs p n a
    unfolding scan
    scan-IsFirstMatch p zero a h = absurd (ground arith)
    scan-IsFirstMatch p (suc n) a h = elim (Bool-cases (matches_at mem wild p bs)) [
      | inl e ↦
          let here : p ≡ a = ground arith in
          subst (λ k. IsFirstMatch mem wild bs p (suc n) k) here
            (
              omega arith,
              omega arith,
              matches_at-Matches p bs e,
              λ q x y. absurd (omega (arith, x, y)),
            )
      | inr e ↦
          let (low, high, match, before) = scan-IsFirstMatch (p + 1) n a (ground arith) in
          (
            omega (arith, low),
            omega (arith, high),
            match,
            λ q x y. elim (Bool-cases (q == p)) [
              | inl k ↦
                  subst (λ k. ¬ Matches mem wild k bs) (sym ((==_iff q p).0 k)) (no_match p bs e)
              | inr k ↦ before q (ground (arith, x, k)) y
            ],
          )
    ]

    scan-HasNoMatch : (p n : ℕ) → scan mem wild bs p n ≡ none → HasNoMatch mem wild bs p n
    unfolding scan
    scan-HasNoMatch p zero h q x y = absurd (omega (arith, x, y))
    scan-HasNoMatch p (suc n) h q x y = elim (Bool-cases (matches_at mem wild p bs)) [
      | inl e ↦ absurd (ground arith)
      | inr e ↦ elim (Bool-cases (q == p)) [
        | inl k ↦ subst (λ k. ¬ Matches mem wild k bs) (sym ((==_iff q p).0 k)) (no_match p bs e)
        | inr k ↦
            scan-HasNoMatch (p + 1) n (ground arith) q (ground (arith, x, k)) (omega (arith, y))
      ]
    ]

    pub first_unique :
        (p n a b : ℕ) → IsFirstMatch mem wild bs p n a → IsFirstMatch mem wild bs p n b → a ≡ b
    first_unique p n a b (l, h, m, k) (l', h', m', k') = elim (Bool-cases (ltb a b)) [
      | inl e ↦ absurd (k' a l (ground (arith, e)) m)
      | inr e ↦ elim (Bool-cases (ltb b a)) [
        | inl f ↦ absurd (k b l' (ground (arith, f)) m')
        | inr f ↦ ground (arith, e, f)
      ]
    ]

  find_next_found :
      (it : SignatureIterator) (a : ℕ)
      → scan mem wild it.signature it.current it.size ≡ some a
      → find_next mem wild it ≡ (some a, record it { current = a + 1 })
  unfolding find_next
  find_next_found it a e = ap (advance it) e

  find_next_missed :
      (it : SignatureIterator)
      → scan mem wild it.signature it.current it.size ≡ none
      → find_next mem wild it ≡ (none, it)
  unfolding find_next
  find_next_missed it e = ap (advance it) e

  pub find_next_cases :
      (it : SignatureIterator)
      → ((find_next mem wild it ≡ (none, it)) × HasNoMatch mem wild it.signature it.current it.size)
        ⊎ ((a : ℕ) × (find_next mem wild it ≡ (some a, record it { current = a + 1 }))
            × IsFirstMatch mem wild it.signature it.current it.size a)
  find_next_cases it = elim (Option-cases (scan mem wild it.signature it.current it.size)) [
    | inl e ↦ inl (find_next_missed it e, scan-HasNoMatch it.signature it.current it.size e)
    | inr (a, e) ↦
        inr (a, find_next_found it a e, scan-IsFirstMatch it.signature it.current it.size a e)
  ]

  -- `FindNext` returns an address exactly if it is the first of its window where every byte of the
  -- signature is met, and goes on behind it; it returns none exactly if the window has no match. A
  -- window is as many addresses as the section has bytes, from where the search stands.
  pub find_next_iff :
      (it : SignatureIterator)
      → ((a : ℕ)
          → (find_next mem wild it ≡ (some a, record it { current = a + 1 }))
            ↔ IsFirstMatch mem wild it.signature it.current it.size a)
        × ((find_next mem wild it ≡ (none, it))
            ↔ HasNoMatch mem wild it.signature it.current it.size)
  find_next_iff it = elim (find_next_cases it) [
    | inl (e, n) ↦ (
      λ a. (
        λ k. absurd (ground (arith, ap (λ (r : Option ℕ × SignatureIterator). r.0) (sym e ∙ k))),
        λ (l, h, m, k). absurd (n a l h m),
      ),
      (λ k. n, λ k. e),
    )
    | inr (b, e, f) ↦ (
      λ a. (
        λ k.
            subst (λ c. IsFirstMatch mem wild it.signature it.current it.size c)
              (some_injective (ap (λ (r : Option ℕ × SignatureIterator). r.0) (sym e ∙ k))) f,
        λ g.
            e
            ∙ ap (λ c. (some c, record it { current = c + 1 }))
                (first_unique it.signature it.current it.size b a f g),
      ),
      (
        λ k. absurd (ground (arith, ap (λ (r : Option ℕ × SignatureIterator). r.0) (sym e ∙ k))),
        λ n. absurd (n b f.0 f.1 f.2),
      ),
    )
  ]
