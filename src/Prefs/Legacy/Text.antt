-- ===== src/Prefs/Legacy/Text.antt =====
-- The text of a line of the legacy file.
use multi_addon_rss.Base.{
  Bool, Bool-cases, Bytes, [], ap, arith, if◌then◌else◌, inl, inr, none, refl, some, true, ℕ, ◌&&◌,
  ◌++◌, ◌==◌, ◌||◌, ◌∙◌, ◌∷◌, ◌≡◌,
}
use multi_addon_rss.Prefs.Chars.{is_digit_char}
use multi_addon_rss.Prefs.Decimal.{all_digits, parse_decimal_ull}
use multi_addon_rss.Prefs.Decimal.Value.{
  IsDecimal, IsDecimal-parse_decimal_ull, parse_decimal_ull-IsDecimal,
}
use multi_addon_rss.Prefs.Legacy.{legacy_id, trim_newlines}

-- Line feeds and carriage returns only.
abbrev pub newlines : Bytes → Bool
newlines [] = true
newlines (c ∷ s) = (c == 10 || c == 13) && newlines s

-- The line is the decimal number of a nonzero 64-bit id, of 20 digits at most, and line ends.
abbrev pub IsLineOf : Bytes → ℕ → Type 0
IsLineOf line id =
    (digits : Bytes) × (ends : Bytes) × (line ≡ digits ++ ends)
    × (newlines ends ≡ true)
    × IsDecimal digits id

trim_split : (s : Bytes) → (ends : Bytes) × (s ≡ trim_newlines s ++ ends) × (newlines ends ≡ true)
unfolding trim_newlines
trim_split [] = ([], refl, refl)
trim_split (c ∷ s) = let (ends, e, n) = trim_split s in go (trim_newlines s) ends e n
  where
    go :
        (t ends : Bytes)
        → s ≡ t ++ ends
        → newlines ends ≡ true
        → let trimmed : Bytes = elim t [
          | [] ↦ if c == 10 || c == 13 then [] else c ∷ []
          | d ∷ r ↦ c ∷ d ∷ r
        ] in
          (ends' : Bytes) × (c ∷ s ≡ trimmed ++ ends') × (newlines ends' ≡ true)
    go [] ends e n = elim (Bool-cases (c == 10 || c == 13)) [
      | inl k ↦ (c ∷ ends, rw k (ap (λ s. c ∷ s) e), ground arith)
      | inr k ↦ (ends, rw k (ap (λ s. c ∷ s) e), n)
    ]
    go (d ∷ r) ends e n = (ends, ap (λ s. c ∷ s) e, n)

trim_ends : (ends : Bytes) → newlines ends ≡ true → trim_newlines ends ≡ []
unfolding trim_newlines
trim_ends [] n = refl
trim_ends (c ∷ ends) n = rw (trim_ends ends (ground arith)) (ground arith)

trim_digits :
    (digits ends : Bytes)
    → newlines ends ≡ true
    → all_digits digits ≡ true
    → trim_newlines (digits ++ ends) ≡ digits
unfolding trim_newlines all_digits is_digit_char
trim_digits [] ends n d = trim_ends ends n
trim_digits (c ∷ []) ends n d = rw (trim_ends ends n) (ground arith)
trim_digits (c ∷ x ∷ digits) ends n d = rw (trim_digits (x ∷ digits) ends n (ground arith)) refl

legacy_id_lem :
    (line : Bytes) (id : ℕ)
    → legacy_id line ≡ some id
    → parse_decimal_ull (trim_newlines line) ≡ some id
unfolding legacy_id trim_newlines
legacy_id_lem [] id h = ground arith
legacy_id_lem (c ∷ line) id h = go (trim_newlines (c ∷ line)) h
  where
    go :
        (t : Bytes)
        → (elim t [ [] ↦ none | d ∷ digits ↦ parse_decimal_ull (d ∷ digits) ]) ≡ some id
        → parse_decimal_ull t ≡ some id
    go [] h = ground arith
    go (d ∷ digits) h = h

pub legacy_id-IsLineOf : (line : Bytes) (id : ℕ) → legacy_id line ≡ some id → IsLineOf line id
legacy_id-IsLineOf line id h =
    let (ends, e, n) = trim_split line in
    let d = parse_decimal_ull-IsDecimal (trim_newlines line) id (legacy_id_lem line id h) in
    (trim_newlines line, ends, e, n, d)

legacy_id_text :
    (digits ends : Bytes) (id : ℕ)
    → newlines ends ≡ true
    → IsDecimal digits id
    → legacy_id (digits ++ ends) ≡ some id
unfolding legacy_id
legacy_id_text [] ends id n d = absurd (omega (arith, d.nonempty))
legacy_id_text (c ∷ digits) ends id n d =
    ground (
      arith,
      trim_digits (c ∷ digits) ends n d.digits,
      IsDecimal-parse_decimal_ull (c ∷ digits) id d,
    )

pub IsLineOf-legacy_id : (line : Bytes) (id : ℕ) → IsLineOf line id → legacy_id line ≡ some id
IsLineOf-legacy_id line id (digits, ends, e, n, d) =
    ap legacy_id e ∙ legacy_id_text digits ends id n d
