-- ===== src/Prefs/Grammar/Accepted.antt =====
-- The outer loop, and the whole document.
use multi_addon_rss.Base.{
  Bool-cases, Bytes, List, Option, [], ap, arith, inl, inr, none, refl, some, suc, true, ℕ, ◌<◌,
  ◌∙◌, ◌∷◌, ◌≡◌,
}
use multi_addon_rss.Prefs.Chars.{consume_char, is_token_delimiter, is_ws_char, skip_ws_and_comments}
use multi_addon_rss.Prefs.Chars.Tokens.{is_plain, is_token_start}
use multi_addon_rss.Prefs.Entries.{Outcome, again, closed, no_ids, ok}
use multi_addon_rss.Prefs.Grammar.{Blank, Members, gap_text, is_gap, members_text}
use multi_addon_rss.Prefs.Grammar.Documents.{
  Document, IsDocument, PairGaps, doc_round-pair, document_text, is_pair_gaps, is_trailing,
  key_text, opt_out_text, opt_out_value-text, pairs_text, trailing_text, version_text,
  version_value-text,
}
use multi_addon_rss.Prefs.Grammar.Gaps.{delimiter_gap, skip_gap, skip_gap_token}
use multi_addon_rss.Prefs.Grammar.InnerObject.{ends_pair_delimiter, members_count, with_members}
use multi_addon_rss.Prefs.Parse.{
  Doc, and_then, doc_end, doc_loop, doc_round, doc_start, doc_value, empty_doc, lift, opt_out_key,
  parse_with, version_key,
}

doc_loop_again :
    (f : ℕ) (d d' : Doc) (s t : Bytes)
    → doc_round f d s ≡ ok (again d' t)
    → doc_loop (suc f) d s ≡ doc_loop f d' t
unfolding doc_loop
doc_loop_again f d d' s t h = rw (h, doc_loop) refl

doc_loop_closed :
    (f : ℕ) (d d' : Doc) (s t : Bytes)
    → doc_round f d s ≡ ok (closed d' t)
    → doc_loop (suc f) d s ≡ ok (d', t)
unfolding doc_loop
doc_loop_closed f d d' s t h = rw (h, doc_loop) refl

doc_round-closed :
    (f : ℕ) (d : Doc) (g : List Blank) (s : Bytes)
    → is_gap g ≡ true
    → doc_round f d (gap_text g (125 ∷ s)) ≡ ok (closed d s)
unfolding doc_round
doc_round-closed f d g s h =
    rw (skip_gap_token g 125 s h (unfold is_token_start is_ws_char in refl))
      (unfold consume_char in refl)

-- The last pair, with what closes the object.
last_pair :
    (f : ℕ) (d d' : Doc) (g : PairGaps) (key s tail : Bytes) (tr : Option (List Blank)) (c : ℕ)
    → is_pair_gaps g ≡ true
    → is_plain key ≡ true
    → is_token_start c ≡ true
    → is_trailing tr ≡ true
    → doc_value (suc f) d key (c ∷ s) ≡ ok (d', gap_text g.after_value (trailing_text tr tail))
    → doc_loop (suc (suc f)) d (key_text g key (c ∷ s)) ≡ ok (d', tail)
last_pair f d d' g key s tail none c h plain k t value =
    doc_loop_closed (suc f) d d' (key_text g key (c ∷ s)) tail
      (doc_round-pair (suc f) d d' g key s tail c 125 h plain k refl value)
last_pair f d d' g key s tail (some trailing_gap) c h plain k t value =
    doc_loop_again (suc f) d d' (key_text g key (c ∷ s)) (gap_text trailing_gap (125 ∷ tail)) (
      doc_round-pair (suc f) d d' g key s (gap_text trailing_gap (125 ∷ tail)) c 44 h plain k refl
        value)
    ∙ doc_loop_closed f d' d' (gap_text trailing_gap (125 ∷ tail)) tail
        (doc_round-closed f d' trailing_gap tail t)

abbrev read_members : Members → Doc
read_members ms = record { ids = with_members ms no_ids; seen_version = true; seen_opt_out = true }

version_plain : is_plain version_key ≡ true
unfolding is_plain
version_plain = refl

opt_out_plain : is_plain opt_out_key ≡ true
unfolding is_plain
opt_out_plain = refl

digit_token : is_token_start 49 ≡ true
unfolding is_token_start is_ws_char
digit_token = refl

brace_token : is_token_start 123 ≡ true
unfolding is_token_start is_ws_char
brace_token = refl

delimiter_after :
    (g : PairGaps) (tr : Option (List Blank)) (tail : Bytes)
    → is_pair_gaps g ≡ true
    → is_token_delimiter (gap_text g.after_value (trailing_text tr tail)) ≡ true
delimiter_after g none tail h =
    delimiter_gap g.after_value (125 ∷ tail) (ground (arith, h)) (ends_pair_delimiter 125 tail refl)
delimiter_after g (some k) tail h =
    delimiter_gap g.after_value (44 ∷ gap_text k (125 ∷ tail)) (ground (arith, h))
      (ends_pair_delimiter 44 (gap_text k (125 ∷ tail)) refl)

doc_loop-document :
    (f : ℕ) (d : Document) (tail : Bytes)
    → IsDocument d
    → members_count d.members_part < suc f
    → doc_loop (suc (suc (suc f))) empty_doc (pairs_text d (trailing_text d.trailing tail))
      ≡ ok (read_members d.members_part, tail)
doc_loop-document f d tail (o, v, q, a, t, e, n) h = elim (Bool-cases d.version_first) [
  | inl first ↦ rw first (
      let rest = opt_out_text d.opt_out_gaps d.members_part (trailing_text d.trailing tail) in
      let versioned = record empty_doc { seen_version = true } in
      doc_loop_again (suc (suc f)) empty_doc versioned (version_text d.version_gaps (44 ∷ rest))
        rest
        (doc_round-pair (suc (suc f)) empty_doc versioned d.version_gaps version_key
          (gap_text d.version_gaps.after_value (44 ∷ rest)) rest 49 44 v version_plain digit_token
          refl
          (version_value-text (suc (suc f)) empty_doc
            (gap_text d.version_gaps.after_value (44 ∷ rest)) refl
            (delimiter_gap d.version_gaps.after_value (44 ∷ rest) (ground (arith, v))
              (ends_pair_delimiter 44 rest refl))))
      ∙ last_pair f versioned (read_members d.members_part) d.opt_out_gaps opt_out_key
          (members_text d.members_part
            (gap_text d.opt_out_gaps.after_value (trailing_text d.trailing tail)))
          tail d.trailing 123 q opt_out_plain brace_token t
          (opt_out_value-text (suc f) versioned d.members_part
            (gap_text d.opt_out_gaps.after_value (trailing_text d.trailing tail)) refl refl h a))
  | inr second ↦ rw second (
      let rest = version_text d.version_gaps (trailing_text d.trailing tail) in
      let listed = record empty_doc {
        ids = with_members d.members_part no_ids;
        seen_opt_out = true;
      } in
      doc_loop_again (suc (suc f)) empty_doc listed
        (opt_out_text d.opt_out_gaps d.members_part (44 ∷ rest)) rest
        (doc_round-pair (suc (suc f)) empty_doc listed d.opt_out_gaps opt_out_key
          (members_text d.members_part (gap_text d.opt_out_gaps.after_value (44 ∷ rest))) rest 123
          44 q opt_out_plain brace_token refl
          (opt_out_value-text (suc (suc f)) empty_doc d.members_part
            (gap_text d.opt_out_gaps.after_value (44 ∷ rest)) refl refl (omega (arith, h)) a))
      ∙ last_pair f listed (read_members d.members_part) d.version_gaps version_key
          (gap_text d.version_gaps.after_value (trailing_text d.trailing tail)) tail d.trailing 49 v
          version_plain digit_token t
          (version_value-text (suc f) listed
            (gap_text d.version_gaps.after_value (trailing_text d.trailing tail)) refl
            (delimiter_after d.version_gaps d.trailing tail v)))
]

doc_end-read :
    (ms : Members) (g : List Blank)
    → is_gap g ≡ true
    → doc_end (read_members ms) (gap_text g []) ≡ some (with_members ms no_ids).parsed
unfolding doc_end
doc_end-read ms g h =
    let e : skip_ws_and_comments (gap_text g []) ≡ some [] =
      skip_gap g [] h ∙ unfold skip_ws_and_comments in refl in
    rw e refl

doc_start-document :
    (d : Document)
    → IsDocument d
    → doc_start (document_text d)
      ≡ some (pairs_text d (trailing_text d.trailing (gap_text d.ending [])))
unfolding doc_start
doc_start-document d (o, v, q, a, t, e, n) =
    rw
      (
        n,
        skip_gap_token d.opening 123
            (pairs_text d (trailing_text d.trailing (gap_text d.ending []))) o brace_token,
      )
      (unfold consume_char in refl)

pub parse_with-document :
    (f : ℕ) (d : Document)
    → IsDocument d
    → members_count d.members_part < suc f
    → parse_with (suc (suc (suc f))) (document_text d)
      ≡ ok (with_members d.members_part no_ids).parsed
unfolding parse_with
parse_with-document f d v h =
    let (o, _, q, a, t, e, n) = v in
    ap
      (λ (o : Option Bytes).
        and_then (lift o)
          (λ s. and_then (doc_loop (suc (suc (suc f))) empty_doc s) λ r. lift (doc_end r.0 r.1)))
      (doc_start-document d v)
    ∙ ap (λ (o : Outcome (Doc × Bytes)). and_then o λ r. lift (doc_end r.0 r.1))
        (doc_loop-document f d (gap_text d.ending []) v h)
    ∙ ap lift (doc_end-read d.members_part d.ending e)
