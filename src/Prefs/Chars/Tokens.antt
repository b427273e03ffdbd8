-- ===== src/Prefs/Chars/Tokens.antt =====
-- What the scanner does at the pieces of a text that the writer produces.
use multi_addon_rss.Base.{
  Bool, Bytes, [], append-nil, append_assoc, arith, not, refl, some, true, ℕ, ◌&&◌, ◌++◌, ◌==◌,
  ◌||◌, ◌∷◌, ◌≡◌,
}
use multi_addon_rss.Prefs.Chars.{
  is_digit_char, is_ws_char, parse_quoted_string, quoted_content, skip_ws_and_comments,
}
use multi_addon_rss.Prefs.Decimal.{all_digits}

pub skip_space :
    (c : ℕ) (x : Bytes)
    → is_ws_char c ≡ true
    → skip_ws_and_comments (c ∷ x) ≡ skip_ws_and_comments x
unfolding skip_ws_and_comments is_ws_char
skip_space c [] h = ground arith
skip_space c (d ∷ x) h = ground arith

-- The byte begins a token.
unfoldable pub is_token_start : ℕ → Bool
is_token_start c = not (c == 0 || is_ws_char c || c == 47)

pub skip_token :
    (c : ℕ) (x : Bytes) → is_token_start c ≡ true → skip_ws_and_comments (c ∷ x) ≡ some (c ∷ x)
unfolding skip_ws_and_comments is_token_start
skip_token c [] h = ground arith
skip_token c (d ∷ x) h = ground arith

-- A text with no quote, backslash or NUL.
unfoldable pub is_plain : Bytes → Bool
is_plain [] = true
is_plain (c ∷ x) = not (c == 0 || c == 92 || c == 34) && is_plain x

quoted_content-plain :
    (t out rest : Bytes)
    → is_plain t ≡ true
    → quoted_content out (t ++ 34 ∷ rest) ≡ some (out ++ t, rest)
unfolding quoted_content is_plain
quoted_content-plain [] out rest h = rw append-nil
quoted_content-plain (c ∷ t) out rest h =
    ground (arith, quoted_content-plain t (out ++ c ∷ []) rest, append_assoc out (c ∷ []) t)

pub parse_quoted_string-plain :
    (t rest : Bytes)
    → is_plain t ≡ true
    → parse_quoted_string (34 ∷ (t ++ 34 ∷ rest)) ≡ some (t, rest)
unfolding parse_quoted_string
parse_quoted_string-plain t rest h = quoted_content-plain t [] rest h

pub is_plain-all_digits : (t : Bytes) → all_digits t ≡ true → is_plain t ≡ true
unfolding is_plain all_digits is_digit_char
is_plain-all_digits [] h = refl
is_plain-all_digits (c ∷ t) h = ground (arith, is_plain-all_digits t)
