-- ===== src/Prefs/Grammar/Parsed.antt =====
-- Every document of the grammar is parsed, and what is published is what its members say.
use multi_addon_rss.Base.{
  Bool, Bool-cases, Bytes, List, [], ap, arith, false, inl, inr, length, length-append, suc, true,
  zero, ℕ, ◌++◌, ◌+◌, ◌<◌, ◌∙◌, ◌∷◌, ◌≡◌, ◌≤◌,
}
use multi_addon_rss.Prefs.Decimal.{decimal}
use multi_addon_rss.Prefs.Entries.{no_ids, ok}
use multi_addon_rss.Prefs.Grammar.{
  Blank, Member, Members, and_more, blank_text, block_comment, bool_text, gap_text, last_one,
  line_comment, member_text, members_text, no_more, says_out, white,
}
use multi_addon_rss.Prefs.Grammar.Accepted.{parse_with-document}
use multi_addon_rss.Prefs.Grammar.Documents.{
  Document, IsDocument, PairGaps, document_text, key_text, opt_out_text, pairs_text, trailing_text,
  version_text,
}
use multi_addon_rss.Prefs.Grammar.InnerObject.{member-with_members, members_count, with_members}
use multi_addon_rss.Prefs.IdSet.{IdSet, member}
use multi_addon_rss.Prefs.Parse.{
  opt_out_key, parse_rss_asset_preferences, parse_with, published, version_key,
}

length_blank : (b : Blank) (s : Bytes) → length s ≤ length (blank_text b s)
length_blank (white c) s = omega arith
length_blank (line_comment body c) s = omega (arith, length-append body (c ∷ s))
length_blank (block_comment body) s = omega (arith, length-append body (42 ∷ 47 ∷ s))

length_gap : (g : List Blank) (s : Bytes) → length s ≤ length (gap_text g s)
length_gap [] s = omega arith
length_gap (b ∷ g) s = omega (arith, length_blank b (gap_text g s), length_gap g s)

length_bool : (v : Bool) (s : Bytes) → length s ≤ length (bool_text v s)
length_bool true s = omega arith
length_bool false s = omega arith

length_member : (m : Member) (s : Bytes) → length s < length (member_text m s)
length_member m s =
    let value = bool_text m.value (gap_text m.behind_value s) in
    let colon = 58 ∷ gap_text m.behind_colon value in
    let key = 34 ∷ gap_text m.behind_key colon in
    omega (
      arith,
      length_gap m.before (34 ∷ (decimal m.id ++ key)),
      length-append (decimal m.id) key,
      length_gap m.behind_key colon,
      length_gap m.behind_colon value,
      length_bool m.value (gap_text m.behind_value s),
      length_gap m.behind_value s,
    )

length_members :
    (ms : Members) (s : Bytes) → members_count ms + length s < length (members_text ms s)
length_members (no_more g) s = omega (arith, length_gap g (125 ∷ s))
length_members (last_one m) s = omega (arith, length_member m (125 ∷ s))
length_members (and_more m ms) s =
    omega (arith, length_member m (44 ∷ members_text ms s), length_members ms s)

length_key : (g : PairGaps) (key s : Bytes) → length s ≤ length (key_text g key s)
length_key g key s =
    let colon = 58 ∷ gap_text g.after_colon s in
    let quote = 34 ∷ gap_text g.after_key colon in
    omega (
      arith,
      length_gap g.before_key (34 ∷ (key ++ quote)),
      length-append key quote,
      length_gap g.after_key colon,
      length_gap g.after_colon s,
    )

length_opt_out :
    (g : PairGaps) (ms : Members) (s : Bytes)
    → suc (members_count ms + length s) < length (opt_out_text g ms s)
length_opt_out g ms s =
    let behind = gap_text g.after_value s in
    omega (
      arith,
      length_key g opt_out_key (123 ∷ members_text ms behind),
      length_members ms behind,
      length_gap g.after_value s,
    )

length_version : (g : PairGaps) (s : Bytes) → length s < length (version_text g s)
length_version g s =
    omega
      (arith, length_key g version_key (49 ∷ gap_text g.after_value s), length_gap g.after_value s)

length_pairs :
    (d : Document) (s : Bytes) → suc (members_count d.members_part) < length (pairs_text d s)
length_pairs d s = elim (Bool-cases d.version_first) [
  | inl e ↦
      let rest = opt_out_text d.opt_out_gaps d.members_part s in
      rw e (
        omega (
          arith,
          length_version d.version_gaps (44 ∷ rest),
          length_opt_out d.opt_out_gaps d.members_part s,
        ))
  | inr e ↦ rw e (
      omega
        (arith, length_opt_out d.opt_out_gaps d.members_part (44 ∷ version_text d.version_gaps s)))
]

length_document :
    (d : Document) → suc (suc (members_count d.members_part)) < length (document_text d)
length_document d =
    let tail = trailing_text d.trailing (gap_text d.ending []) in
    omega (arith, length_gap d.opening (123 ∷ pairs_text d tail), length_pairs d tail)

-- With the fuel of the parse, whatever the length of the document is.
parse_with-length :
    (n : ℕ) (d : Document)
    → IsDocument d
    → suc (suc (members_count d.members_part)) < n
    → parse_with (suc n) (document_text d) ≡ ok (with_members d.members_part no_ids).parsed
parse_with-length zero d v h = absurd (omega (arith, h))
parse_with-length (suc zero) d v h = absurd (omega (arith, h))
parse_with-length (suc (suc f)) d v h = parse_with-document f d v (omega (arith, h))

-- A document of the two keys in either order, with nonzero 64-bit ids none of which stands twice,
-- any values, white space and comments before each token and at the end, and a comma or none behind
-- the last pair of each object, is parsed, whatever `out` held before, and the ids that are
-- published are exactly those with the value true. No comment has a NUL byte.
pub parse-document :
    (d : Document) (out : IdSet)
    → IsDocument d
    → let r = parse_rss_asset_preferences (document_text d) out in
      (r.0 ≡ true) × ((x : ℕ) → member x r.1 ≡ says_out x d.members_part)
unfolding parse_rss_asset_preferences member
parse-document d out v =
    let e =
      ap (λ o. published o out)
        (parse_with-length (length (document_text d)) d v (length_document d)) in
    (
      ap (λ (r : Bool × IdSet). r.0) e,
      λ x. ap (λ (r : Bool × IdSet). member x r.1) e ∙ member-with_members d.members_part no_ids x,
    )
