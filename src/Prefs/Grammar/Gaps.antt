-- ===== src/Prefs/Grammar/Gaps.antt =====
-- The scanner skips gaps.
use multi_addon_rss.Base.{Bytes, List, [], arith, refl, some, true, ℕ, ◌++◌, ◌∙◌, ◌∷◌, ◌≡◌}
use multi_addon_rss.Prefs.Chars.{
  is_token_delimiter, is_ws_char, skip_block, skip_line, skip_ws_and_comments,
}
use multi_addon_rss.Prefs.Chars.Tokens.{is_token_start, skip_space, skip_token}
use multi_addon_rss.Prefs.Grammar.{
  Blank, blank_text, block_comment, gap_text, is_blank, is_gap, is_line_end, line_comment,
  stays_in_block, stays_in_line, white,
}

skip_line_body :
    (body : Bytes) (c : ℕ) (s : Bytes)
    → stays_in_line body ≡ true
    → is_line_end c ≡ true
    → skip_line (body ++ c ∷ s) ≡ skip_ws_and_comments s
unfolding skip_line
skip_line_body [] c s h k = ground arith
skip_line_body (d ∷ body) c s h k = ground (arith, skip_line_body body c s)

skip_block_body :
    (body s : Bytes)
    → stays_in_block body ≡ true
    → skip_block (body ++ 42 ∷ 47 ∷ s) ≡ skip_ws_and_comments s
unfolding skip_block
skip_block_body [] s h = refl
skip_block_body (c ∷ []) s h = ground arith
skip_block_body (c ∷ d ∷ body) s h = ground (arith, skip_block_body (d ∷ body) s)

skip_line_comment : (s : Bytes) → skip_ws_and_comments (47 ∷ 47 ∷ s) ≡ skip_line s
unfolding skip_ws_and_comments is_ws_char
skip_line_comment s = refl

skip_block_comment : (s : Bytes) → skip_ws_and_comments (47 ∷ 42 ∷ s) ≡ skip_block s
unfolding skip_ws_and_comments is_ws_char
skip_block_comment s = refl

skip_blank :
    (b : Blank) (s : Bytes)
    → is_blank b ≡ true
    → skip_ws_and_comments (blank_text b s) ≡ skip_ws_and_comments s
skip_blank (white c) s h = skip_space c s h
skip_blank (line_comment body c) s h =
    skip_line_comment (body ++ c ∷ s)
    ∙ skip_line_body body c s (ground (arith, h)) (ground (arith, h))
skip_blank (block_comment body) s h =
    skip_block_comment (body ++ 42 ∷ 47 ∷ s) ∙ skip_block_body body s h

pub skip_gap :
    (g : List Blank) (s : Bytes)
    → is_gap g ≡ true
    → skip_ws_and_comments (gap_text g s) ≡ skip_ws_and_comments s
skip_gap [] s h = refl
skip_gap (b ∷ g) s h =
    skip_blank b (gap_text g s) (ground (arith, h)) ∙ skip_gap g s (ground (arith, h))

-- A gap before a token.
pub skip_gap_token :
    (g : List Blank) (c : ℕ) (s : Bytes)
    → is_gap g ≡ true
    → is_token_start c ≡ true
    → skip_ws_and_comments (gap_text g (c ∷ s)) ≡ some (c ∷ s)
skip_gap_token g c s h k = skip_gap g (c ∷ s) h ∙ skip_token c s k

delimiter_blank :
    (b : Blank) (s : Bytes) → is_blank b ≡ true → is_token_delimiter (blank_text b s) ≡ true
unfolding is_token_delimiter is_ws_char
delimiter_blank (white c) s h = ground (arith, h)
delimiter_blank (line_comment body c) s h = refl
delimiter_blank (block_comment body) s h = refl

pub delimiter_gap :
    (g : List Blank) (s : Bytes)
    → is_gap g ≡ true
    → is_token_delimiter s ≡ true
    → is_token_delimiter (gap_text g s) ≡ true
delimiter_gap [] s h k = k
delimiter_gap (b ∷ g) s h k = delimiter_blank b (gap_text g s) (ground (arith, h))
