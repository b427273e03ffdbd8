-- ===== src/Prefs/Grammar/Tests.antt =====
-- A document with comments, its keys in the other order, and commas behind the last pairs.
use multi_addon_rss.Base.{Bool, List, [], arith, codes, false, refl, some, true, ℕ, ◌∷◌, ◌≡◌}
use multi_addon_rss.Prefs.Chars.{is_ws_char}
use multi_addon_rss.Prefs.Decimal.{decimal, digits_rev}
use multi_addon_rss.Prefs.Grammar.{
  AreMembers, Blank, Member, Members, and_more, block_comment, line_comment, no_more, says_out,
  white,
}
use multi_addon_rss.Prefs.Grammar.Documents.{Document, IsDocument, PairGaps, document_text}
use multi_addon_rss.Prefs.Grammar.Parsed.{parse-document}
use multi_addon_rss.Prefs.IdSet.{member}
use multi_addon_rss.Prefs.Parse.{has_nul, parse_rss_asset_preferences}

abbrev space : List Blank
space = white 32 ∷ []

abbrev commented : List Blank
commented = line_comment (codes " opted out") 10 ∷ block_comment (codes "*") ∷ []

abbrev plain_gaps : PairGaps
plain_gaps = record {
  before_key = commented;
  after_key = [];
  after_colon = space;
  after_value = space;
}

abbrev member_of : ℕ → Bool → Member
member_of id value = record {
  before = commented;
  behind_key = space;
  behind_colon = space;
  behind_value = commented;
  id = id;
  value = value;
}

abbrev sample_members : Members
sample_members = and_more (member_of 7 true) (and_more (member_of 9 false) (no_more space))

abbrev sample_document : Document
sample_document = record {
  opening = commented;
  version_gaps = plain_gaps;
  opt_out_gaps = plain_gaps;
  members_part = sample_members;
  version_first = false;
  trailing = some space;
  ending = commented;
}

sample-AreMembers : AreMembers sample_members
unfolding is_ws_char
sample-AreMembers =
    ((refl, omega arith, omega arith), refl, ((refl, omega arith, omega arith), refl, refl))

sample-IsDocument : IsDocument sample_document
unfolding is_ws_char has_nul decimal digits_rev
sample-IsDocument = (refl, refl, refl, sample-AreMembers, refl, refl, refl)

parse-document_example :
    let r = parse_rss_asset_preferences (document_text sample_document) (3 ∷ []) in
    (r.0 ≡ true) × ((x : ℕ) → member x r.1 ≡ says_out x sample_members)
parse-document_example = parse-document sample_document (3 ∷ []) sample-IsDocument
