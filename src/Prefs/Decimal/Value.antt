-- ===== src/Prefs/Decimal/Value.antt =====
-- `ParseDecimalUll` against the value that its text has.
use native.Mathlib.Nat.{pow-suc}
use mathlib.Core.List.{reverse-cons}
use multi_addon_rss.Base.{
  Bool-cases, Bytes, [], arith, if◌then◌else◌, inl, inr, length, length-reverse, ltb, none, refl,
  reverse, some, suc, sym, true, zero, ℕ, ◌%◌, ◌*◌, ◌++◌, ◌+◌, ◌-◌, ◌/◌, ◌<◌, ◌==◌, ◌^◌, ◌↔◌, ◌∙◌,
  ◌∷◌, ◌≡◌, ◌≤◌,
}
use multi_addon_rss.Prefs.Chars.{is_digit_char}
use multi_addon_rss.Prefs.Decimal.{
  all_digits, decimal, digits_rev, parse_decimal_ull, scan_digits, ull_mod, value_of,
}

value_of-ge : (acc : ℕ) (cs : Bytes) → acc ≤ value_of acc cs
value_of-ge acc [] = omega arith
value_of-ge acc (c ∷ cs) = omega (arith, value_of-ge (acc * 10 + (c - 48)) cs)

-- The test before each step is exact: the scan fails where the value leaves the type, and no
-- step wraps.
scan_digits-value_of :
    (cs : Bytes) (acc : ℕ)
    → acc < ull_mod
    → all_digits cs ≡ true
    → scan_digits acc cs ≡ (if ltb (value_of acc cs) ull_mod then some (value_of acc cs) else none)
unfolding scan_digits all_digits is_digit_char
scan_digits-value_of [] acc h d = ground arith
scan_digits-value_of (c ∷ cs) acc h d =
    ground
      (arith, scan_digits-value_of cs (acc * 10 + (c - 48)), value_of-ge (acc * 10 + (c - 48)) cs)

-- What `ParseDecimalUll` accepts.
pub record IsDecimal (text : Bytes) (v : ℕ) : Type 0 where
  pub nonempty : 0 < length text
  pub short : length text ≤ 20
  pub digits : all_digits text ≡ true
  pub value : v ≡ value_of 0 text
  pub positive : 0 < v
  pub in_range : v < ull_mod

pub parse_decimal_ull-IsDecimal :
    (text : Bytes) (v : ℕ) → parse_decimal_ull text ≡ some v → IsDecimal text v
unfolding parse_decimal_ull
parse_decimal_ull-IsDecimal text v h = ground (arith, scan_digits-value_of text 0)

pub IsDecimal-parse_decimal_ull :
    (text : Bytes) (v : ℕ) → IsDecimal text v → parse_decimal_ull text ≡ some v
unfolding parse_decimal_ull
IsDecimal-parse_decimal_ull text v d = ground (arith, scan_digits-value_of text 0)

-- `ParseDecimalUll` accepts a text exactly if it is 1 to 20 digits whose value is positive and below
-- 2 ^ 64, and yields that value.
pub parse_decimal_ull_iff :
    (text : Bytes) (v : ℕ) → (parse_decimal_ull text ≡ some v) ↔ IsDecimal text v
parse_decimal_ull_iff text v =
    (parse_decimal_ull-IsDecimal text v, IsDecimal-parse_decimal_ull text v)

-- The digits printed.
value_of-snoc :
    (acc c : ℕ) (xs : Bytes) → value_of acc (xs ++ c ∷ []) ≡ value_of acc xs * 10 + (c - 48)
value_of-snoc acc c [] = refl
value_of-snoc acc c (x ∷ xs) = value_of-snoc (acc * 10 + (x - 48)) c xs

all_digits-snoc :
    (c : ℕ) (xs : Bytes)
    → all_digits xs ≡ true
    → is_digit_char c ≡ true
    → all_digits (xs ++ c ∷ []) ≡ true
unfolding all_digits
all_digits-snoc c [] h k = ground arith
all_digits-snoc c (x ∷ xs) h k = ground (arith, all_digits-snoc c xs)

value-digits_rev : (f v : ℕ) → v ≤ f → value_of 0 (reverse (digits_rev f v)) ≡ v
unfolding digits_rev
value-digits_rev zero v h = omega arith
value-digits_rev (suc f) v h = elim (Bool-cases (v == 0)) [
  | inl e ↦ rw e (ground arith)
  | inr e ↦ rw e (
      rw reverse-cons (
        value_of-snoc 0 (48 + v % 10) (reverse (digits_rev f (v / 10)))
        ∙ omega (arith, value-digits_rev f (v / 10) (ground arith))))
]

digits-digits_rev : (f v : ℕ) → all_digits (reverse (digits_rev f v)) ≡ true
unfolding digits_rev is_digit_char
digits-digits_rev zero v = unfold all_digits in refl
digits-digits_rev (suc f) v = elim (Bool-cases (v == 0)) [
  | inl e ↦ rw e (unfold all_digits in refl)
  | inr e ↦ rw e (
      rw reverse-cons
        (all_digits-snoc (48 + v % 10) _ (digits-digits_rev f (v / 10)) (ground arith)))
]

length-digits_rev : (f v k : ℕ) → v < 10 ^ k → length (digits_rev f v) ≤ k
unfolding digits_rev
length-digits_rev zero v k h = omega arith
length-digits_rev (suc f) v zero h = ground arith
length-digits_rev (suc f) v (suc k) h = ground (arith, length-digits_rev f (v / 10) k, pow-suc 10 k)

-- `numBuf` and `rev` have room: an `unsigned long long` has at most twenty digits.
pub length-decimal : (v : ℕ) → v < ull_mod → length (decimal v) ≤ 20
unfolding decimal
length-decimal v h = elim (Bool-cases (v == 0)) [
  | inl e ↦ rw e (omega arith)
  | inr e ↦ rw (e, length-reverse) (length-digits_rev v v 20 (omega arith))
]

value-decimal : (v : ℕ) → value_of 0 (decimal v) ≡ v
unfolding decimal
value-decimal v = elim (Bool-cases (v == 0)) [
  | inl e ↦ rw e (ground arith)
  | inr e ↦ rw e (value-digits_rev v v (omega arith))
]

pub digits-decimal : (v : ℕ) → all_digits (decimal v) ≡ true
unfolding decimal
digits-decimal v = elim (Bool-cases (v == 0)) [
  | inl e ↦ rw e (unfold all_digits is_digit_char in refl)
  | inr e ↦ rw e (digits-digits_rev v v)
]

nonempty_of_value : (t : Bytes) → 0 < value_of 0 t → 0 < length t
nonempty_of_value [] h = h
nonempty_of_value (c ∷ t) h = omega arith

-- The digits that the writer prints for a nonzero 64-bit id are read back to it.
pub parse-decimal : (v : ℕ) → 0 < v → v < ull_mod → parse_decimal_ull (decimal v) ≡ some v
parse-decimal v p h =
    let e = value-decimal v in
    IsDecimal-parse_decimal_ull (decimal v) v (record {
      nonempty = nonempty_of_value (decimal v) (omega arith);
      short = length-decimal v h;
      digits = digits-decimal v;
      value = sym e;
      positive = p;
      in_range = h;
    })
