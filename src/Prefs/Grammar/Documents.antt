-- ===== src/Prefs/Grammar/Documents.antt =====
-- The parser accepts every document that the grammar allows, and publishes what its members say.
use multi_addon_rss.Base.{
  Bool, Bytes, List, Option, [], ap, arith, equal, false, if◌then◌else◌, none, refl, some, true, ℕ,
  ◌&&◌, ◌++◌, ◌<◌, ◌∷◌, ◌≡◌,
}
use multi_addon_rss.Prefs.Chars.{consume_char, is_token_delimiter, is_ws_char}
use multi_addon_rss.Prefs.Chars.Tokens.{is_plain, is_token_start, parse_quoted_string-plain}
use multi_addon_rss.Prefs.Entries.{no_ids, ok}
use multi_addon_rss.Prefs.Grammar.{AreMembers, Blank, Members, gap_text, is_gap, members_text}
use multi_addon_rss.Prefs.Grammar.Gaps.{skip_gap_token}
use multi_addon_rss.Prefs.Grammar.InnerObject.{
  ends_pair, ends_pair_token, ids_loop-members, members_count, separated, separator-separated,
  with_members,
}
use multi_addon_rss.Prefs.IdSet.{member}
use multi_addon_rss.Prefs.Parse.{
  Doc, doc_key, doc_pair, doc_round, doc_value, has_nul, lift, opt_out_key, opt_out_value,
  version_key, version_value,
}

-- The gaps of a pair of the outer object, and the document: its two pairs, which of them is first,
-- and the gap of a brace behind a comma, if there is one behind the last pair.
pub record PairGaps : Type 0 where
  pub before_key : List Blank
  pub after_key : List Blank
  pub after_colon : List Blank
  pub after_value : List Blank

pub record Document : Type 0 where
  pub opening : List Blank
  pub version_gaps : PairGaps
  pub opt_out_gaps : PairGaps
  pub members_part : Members
  pub version_first : Bool
  pub trailing : Option (List Blank)
  pub ending : List Blank

abbrev pub is_pair_gaps : PairGaps → Bool
is_pair_gaps g =
    is_gap g.before_key && (is_gap g.after_key && (is_gap g.after_colon && is_gap g.after_value))

-- The text of a pair up to its value.
abbrev pub key_text : PairGaps → Bytes → Bytes → Bytes
key_text g key s =
    gap_text g.before_key (34 ∷ (key ++ 34 ∷ gap_text g.after_key (58 ∷ gap_text g.after_colon s)))

abbrev pub version_text : PairGaps → Bytes → Bytes
version_text g s = key_text g version_key (49 ∷ gap_text g.after_value s)

abbrev pub opt_out_text : PairGaps → Members → Bytes → Bytes
opt_out_text g ms s = key_text g opt_out_key (123 ∷ members_text ms (gap_text g.after_value s))

abbrev pub trailing_text : Option (List Blank) → Bytes → Bytes
trailing_text none s = 125 ∷ s
trailing_text (some g) s = 44 ∷ gap_text g (125 ∷ s)

abbrev pub pairs_text : Document → Bytes → Bytes
pairs_text d s =
    if d.version_first
    then version_text d.version_gaps (44 ∷ opt_out_text d.opt_out_gaps d.members_part s)
    else opt_out_text d.opt_out_gaps d.members_part (44 ∷ version_text d.version_gaps s)

abbrev pub document_text : Document → Bytes
document_text d =
    gap_text d.opening (123 ∷ pairs_text d (trailing_text d.trailing (gap_text d.ending [])))

abbrev pub is_trailing : Option (List Blank) → Bool
is_trailing none = true
is_trailing (some g) = is_gap g

-- Gaps that are gaps, members that are members, and no NUL byte in a comment.
abbrev pub IsDocument : Document → Type 0
IsDocument d =
    (is_gap d.opening ≡ true)
    × (is_pair_gaps d.version_gaps ≡ true)
    × (is_pair_gaps d.opt_out_gaps ≡ true)
    × AreMembers d.members_part
    × (is_trailing d.trailing ≡ true)
    × (is_gap d.ending ≡ true)
    × (has_nul (document_text d) ≡ false)

doc_key-key_text :
    (g : PairGaps) (key s : Bytes) (c : ℕ)
    → is_pair_gaps g ≡ true
    → is_plain key ≡ true
    → is_token_start c ≡ true
    → doc_key (34 ∷ (key ++ 34 ∷ gap_text g.after_key (58 ∷ gap_text g.after_colon (c ∷ s))))
      ≡ some (key, c ∷ s)
unfolding doc_key
doc_key-key_text g key s c h plain k =
    let key_gap : is_gap g.after_key ≡ true = ground (arith, h) in
    let colon_gap : is_gap g.after_colon ≡ true = ground (arith, h) in
    rw
      (
        parse_quoted_string-plain key _ plain,
        skip_gap_token g.after_key 58 (gap_text g.after_colon (c ∷ s)) key_gap
            (unfold is_token_start is_ws_char in refl),
      )
      (unfold consume_char in rw (skip_gap_token g.after_colon c s colon_gap k) refl)

-- A round of the outer loop, where its value is read and the pair ends.
pub doc_round-pair :
    (f : ℕ) (d d' : Doc) (g : PairGaps) (key s t : Bytes) (c e : ℕ)
    → is_pair_gaps g ≡ true
    → is_plain key ≡ true
    → is_token_start c ≡ true
    → ends_pair e ≡ true
    → doc_value f d key (c ∷ s) ≡ ok (d', gap_text g.after_value (e ∷ t))
    → doc_round f d (key_text g key (c ∷ s)) ≡ ok (separated e d' t)
unfolding doc_round doc_pair
doc_round-pair f d d' g key s t c e h plain k l value =
    let first_gap : is_gap g.before_key ≡ true = ground (arith, h) in
    let value_gap : is_gap g.after_value ≡ true = ground (arith, h) in
    rw (skip_gap_token g.before_key 34 _ first_gap (unfold is_token_start is_ws_char in refl)) (
      unfold consume_char in
      rw
        (
          doc_key-key_text g key s c h plain k,
          value,
          skip_gap_token g.after_value e t value_gap (ends_pair_token e l),
        )
        (ap lift (separator-separated e d' t l)))

pub version_value-text :
    (f : ℕ) (d : Doc) (s : Bytes)
    → d.seen_version ≡ false
    → is_token_delimiter s ≡ true
    → doc_value f d version_key (49 ∷ s) ≡ ok (record d { seen_version = true }, s)
unfolding doc_value version_value equal consume_char
version_value-text f d s h k = rw (h, k) refl

pub opt_out_value-text :
    (f : ℕ) (d : Doc) (ms : Members) (s : Bytes)
    → d.seen_opt_out ≡ false
    → d.ids ≡ no_ids
    → members_count ms < f
    → AreMembers ms
    → doc_value f d opt_out_key (123 ∷ members_text ms s)
      ≡ ok (record d { ids = with_members ms no_ids; seen_opt_out = true }, s)
unfolding doc_value opt_out_value equal consume_char
opt_out_value-text f d ms s h e enough a =
    rw (h, e, ids_loop-members f ms no_ids s enough a (λ x k. unfold member in refl)) refl
