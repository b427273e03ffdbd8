-- ===== src/Scanner/Protections.antt =====
-- `get_prot` yields the bits of the first mapping around a range.
use multi_addon_rss.Base.{
  Bool, Bool-cases, Bytes, List, [], ap, arith, false, guard, if◌then◌else◌, inl, inr, length, ltb,
  refl, some, true, ℕ, ◌&&◌, ◌++◌, ◌+◌, ◌<◌, ◌==◌, ◌||◌, ◌∷◌, ◌≡◌,
}
use multi_addon_rss.Scanner.Pages.{
  Prot, add_prot, copy_until, get_prot, hex_value, in_buffer, is_dash, is_space, map_fields,
  parse_prot_from, prot_none,
}

-- A line of the map: two addresses, the permissions, and what follows.
pub record Mapping : Type 0 where
  pub start_text : Bytes
  pub end_text : Bytes
  pub permissions : Bytes
  pub remainder : Bytes

abbrev pub map_line : Mapping → Bytes
map_line m = m.start_text ++ 45 ∷ (m.end_text ++ 32 ∷ (m.permissions ++ 32 ∷ m.remainder))

unfoldable pub any_of : (ℕ → Bool) → Bytes → Bool
any_of stop [] = false
any_of stop (c ∷ s) = stop c || any_of stop s

-- A text that has no character of a kind, and fits its buffer.
abbrev pub IsField : (ℕ → Bool) → Bytes → Type 0
IsField stop text = (any_of stop text ≡ false) × (length text < 16)

abbrev pub IsMapping : Mapping → Type 0
IsMapping m =
    IsField is_dash m.start_text × IsField is_space m.end_text × IsField is_space m.permissions

-- Whether a mapping lies around a range, with room on both sides.
abbrev pub encloses : ℕ → ℕ → Mapping → Bool
encloses addr size m = ltb (hex_value m.start_text) addr && ltb (addr + size) (hex_value m.end_text)

-- Whether the text has a character.
unfoldable pub has_char : ℕ → Bytes → Bool
has_char d [] = false
has_char d (c ∷ s) = c == d || has_char d s

-- The bits of the first mapping around a range.
unfoldable pub first_enclosing : ℕ → ℕ → List Mapping → Prot
first_enclosing addr size [] = prot_none
first_enclosing addr size (m ∷ ms) =
    let rest = first_enclosing addr size ms in
    if encloses addr size m
    then record {
      readable = has_char 114 m.permissions;
      writable = has_char 119 m.permissions;
      executable = has_char 120 m.permissions;
    }
    else rest

unfoldable pub map_lines : List Mapping → List Bytes
map_lines [] = []
map_lines (m ∷ ms) = map_line m ∷ map_lines ms

abbrev pub AllMappings : List Mapping → Type 0
AllMappings [] = Unit {0}
AllMappings (m ∷ ms) = IsMapping m × AllMappings ms

parse_prot_from_lem :
    (prot : Prot) (s : Bytes)
    → parse_prot_from prot s ≡ record {
      readable = prot.readable || has_char 114 s;
      writable = prot.writable || has_char 119 s;
      executable = prot.executable || has_char 120 s;
    }
unfolding parse_prot_from has_char
parse_prot_from_lem prot [] = ground arith
parse_prot_from_lem prot (c ∷ s) = ground (arith, parse_prot_from_lem (add_prot c prot) s)

copy_until_field :
    (stop : ℕ → Bool) (text behind : Bytes) (c : ℕ)
    → any_of stop text ≡ false
    → stop c ≡ true
    → copy_until stop (text ++ c ∷ behind) ≡ some (text, behind)
unfolding copy_until any_of
copy_until_field stop [] behind c h k = rw k refl
copy_until_field stop (d ∷ text) behind c h k = ground (arith, copy_until_field stop text behind c)

in_buffer_field : (text : Bytes) → length text < 16 → in_buffer text ≡ some tt
in_buffer_field text h = let e : ltb (length text) 16 ≡ true = ground (arith, h) in ap guard e

map_fields_lem :
    (m : Mapping)
    → IsMapping m
    → map_fields (map_line m) ≡ some (m.start_text, m.end_text, m.permissions)
unfolding map_fields
map_fields_lem m ((a, la), (b, lb), (c, lc)) =
    let behind_prot = m.remainder in
    let behind_end = m.permissions ++ 32 ∷ behind_prot in
    let behind_start = m.end_text ++ 32 ∷ behind_end in
    rw
      (
        copy_until_field is_dash m.start_text behind_start 45 a refl,
        in_buffer_field m.start_text la,
        copy_until_field is_space m.end_text behind_end 32 b refl,
        in_buffer_field m.end_text lb,
        copy_until_field is_space m.permissions behind_prot 32 c refl,
        in_buffer_field m.permissions lc,
      )
      refl

-- On a map whose lines have their fields within 15 characters, `get_prot` yields the permissions of
-- the first mapping that starts before the range and ends behind it, and none where there is no such
-- mapping.
pub get_prot_first :
    (ms : List Mapping) (addr size : ℕ)
    → AllMappings ms
    → get_prot (map_lines ms) addr size ≡ some (first_enclosing addr size ms)
unfolding get_prot map_lines first_enclosing
get_prot_first [] addr size v = refl
get_prot_first (m ∷ ms) addr size (v, vs) =
    let rest = get_prot_first ms addr size vs in
    let here = parse_prot_from_lem prot_none m.permissions in
    elim (Bool-cases (encloses addr size m)) [
      | inl e ↦ rw (map_fields_lem m v, e, here) refl
      | inr e ↦ rw (map_fields_lem m v, e, rest) refl
    ]
