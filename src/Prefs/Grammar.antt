-- ===== src/Prefs/Grammar.antt =====
-- The documents that the format of src/rss_asset_preferences.h allows, as what they are made of, and
-- their text: white space and comments stand before each token, the two keys in either order, and
-- a comma may stand behind the last pair.
pub mod Gaps
pub mod InnerObject
pub mod Documents
pub mod Accepted
pub mod Parsed
mod Tests
use multi_addon_rss.Base.{
  Bool, Bytes, List, [], codes, false, not, true, ℕ, ◌&&◌, ◌++◌, ◌<◌, ◌==◌, ◌||◌, ◌∷◌, ◌≡◌,
}
use multi_addon_rss.Prefs.Chars.{is_ws_char}
use multi_addon_rss.Prefs.Decimal.{decimal, ull_mod}

pub data Blank : Type 0 where
  white : ℕ → Blank
  line_comment : Bytes → ℕ → Blank
  block_comment : Bytes → Blank

-- The text of a blank, and of some of them, with what follows.
abbrev pub blank_text : Blank → Bytes → Bytes
blank_text (white c) s = c ∷ s
blank_text (line_comment body c) s = 47 ∷ 47 ∷ (body ++ c ∷ s)
blank_text (block_comment body) s = 47 ∷ 42 ∷ (body ++ 42 ∷ 47 ∷ s)

abbrev pub gap_text : List Blank → Bytes → Bytes
gap_text [] s = s
gap_text (b ∷ g) s = blank_text b (gap_text g s)

abbrev pub is_line_end : ℕ → Bool
is_line_end c = c == 10 || c == 13

-- Whether the body of a comment leaves it open.
abbrev pub stays_in_line : Bytes → Bool
stays_in_line [] = true
stays_in_line (c ∷ s) = not (is_line_end c || c == 0) && stays_in_line s

abbrev pub stays_in_block : Bytes → Bool
stays_in_block [] = true
stays_in_block (c ∷ []) = not (c == 0)
stays_in_block (c ∷ d ∷ s) = not (c == 0) && (not (c == 42 && d == 47) && stays_in_block (d ∷ s))

abbrev pub is_blank : Blank → Bool
is_blank (white c) = is_ws_char c
is_blank (line_comment body c) = stays_in_line body && is_line_end c
is_blank (block_comment body) = stays_in_block body

abbrev pub is_gap : List Blank → Bool
is_gap [] = true
is_gap (b ∷ g) = is_blank b && is_gap g

-- An id with its value.
pub record Member : Type 0 where
  pub before : List Blank
  pub behind_key : List Blank
  pub behind_colon : List Blank
  pub behind_value : List Blank
  pub id : ℕ
  pub value : Bool

abbrev pub bool_text : Bool → Bytes → Bytes
bool_text true s = codes "true" ++ s
bool_text false s = codes "false" ++ s

abbrev pub member_text : Member → Bytes → Bytes
member_text m s = gap_text m.before (
    34
    ∷ (decimal m.id
        ++ 34
          ∷ gap_text m.behind_key
              (58 ∷ gap_text m.behind_colon (bool_text m.value (gap_text m.behind_value s)))))

-- The members of the inner object, with what closes it.
pub data Members : Type 0 where
  no_more : List Blank → Members
  last_one : Member → Members
  and_more : Member → Members → Members

abbrev pub members_text : Members → Bytes → Bytes
members_text (no_more g) s = gap_text g (125 ∷ s)
members_text (last_one m) s = member_text m (125 ∷ s)
members_text (and_more m ms) s = member_text m (44 ∷ members_text ms s)

abbrev pub is_member : Member → Bool
is_member m =
    is_gap m.before && (is_gap m.behind_key && (is_gap m.behind_colon && is_gap m.behind_value))

-- What the members say of an id.
abbrev pub says_out : ℕ → Members → Bool
says_out x (no_more g) = false
says_out x (last_one m) = m.id == x && m.value
says_out x (and_more m ms) = (m.id == x && m.value) || says_out x ms

abbrev pub has_id : ℕ → Members → Bool
has_id x (no_more g) = false
has_id x (last_one m) = m.id == x
has_id x (and_more m ms) = m.id == x || has_id x ms

-- Nonzero 64-bit ids, none of them twice, and gaps that are gaps.
abbrev pub AreMembers : Members → Type 0
AreMembers (no_more g) = is_gap g ≡ true
AreMembers (last_one m) = (is_member m ≡ true) × (0 < m.id) × (m.id < ull_mod)
AreMembers (and_more m ms) =
    ((is_member m ≡ true) × (0 < m.id) × (m.id < ull_mod))
    × (has_id m.id ms ≡ false)
    × AreMembers ms
