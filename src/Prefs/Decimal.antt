-- ===== src/Prefs/Decimal.antt =====
-- Decimal numbers of src/rss_asset_preferences.h: `ParseDecimalUll`, and the digits that
-- `BuildRssAssetPreferencesJson` prints.
pub mod Value
use multi_addon_rss.Base.{
  ℕ, zero, suc, ◌+◌, ◌-◌, ◌*◌, ◌/◌, ◌%◌, ◌^◌, Bool, true, not, ◌||◌, ◌&&◌, [], ◌∷◌, reverse, Option,
  none, some, ltb, ◌==◌, if◌then◌else◌, length, Bytes,
}
use multi_addon_rss.Prefs.Chars.{is_digit_char}

-- One past the largest `unsigned long long`.
abbrev pub ull_mod : ℕ
ull_mod = 2 ^ 64

unfoldable pub all_digits : Bytes → Bool
all_digits [] = true
all_digits (c ∷ cs) = is_digit_char c && all_digits cs

-- The second loop: `value` is the accumulator, and the update wraps as the type does.
unfoldable pub scan_digits : ℕ → Bytes → Option ℕ
scan_digits value [] = some value
scan_digits value (c ∷ cs) =
    let digit = c - 48 in
    let more = scan_digits ((value * 10 + digit) % ull_mod) cs in
    if ltb ((ull_mod - 1 - digit) / 10) value then none else more

unfoldable pub parse_decimal_ull : Bytes → Option ℕ
unfolding all_digits scan_digits
parse_decimal_ull text =
    if length text == 0 || ltb 20 (length text)
    then none
    else if not (all_digits text)
    then none
    else elim (scan_digits 0 text) [
      | none ↦ none
      | some value ↦ if value == 0 then none else some value
    ]

-- `while (v > 0) { rev[revLen++] = 48 + v % 10; v /= 10; }`, on fuel, for which `v`
-- is enough: each round divides by 10.
unfoldable pub digits_rev : ℕ → ℕ → Bytes
digits_rev zero v = []
digits_rev (suc f) v =
    let more = digits_rev f (v / 10) in if v == 0 then [] else (48 + v % 10) ∷ more

-- The contents of `numBuf`.
unfoldable pub decimal : ℕ → Bytes
unfolding digits_rev
decimal v = if v == 0 then 48 ∷ [] else reverse (digits_rev v v)

-- What a text of digits means, behind the digits of `acc`.
abbrev pub value_of : ℕ → Bytes → ℕ
value_of acc [] = acc
value_of acc (c ∷ cs) = value_of (acc * 10 + (c - 48)) cs
