-- ===== src/Prefs/Chars.antt =====
-- `namespace detail` of src/rss_asset_preferences.h, but for numbers: the scanner's steps. A
-- position in the document is the list of the bytes from there on.
pub mod Shorter
pub mod Tokens
use multi_addon_rss.Base.{
  Bool, Bytes, Option, [], if◌then◌else◌, leb, none, some, true, ℕ, ◌&&◌, ◌++◌, ◌==◌, ◌>>=◌, ◌||◌,
  ◌∷◌,
}

unfoldable pub is_digit_char : ℕ → Bool
is_digit_char c = leb 48 c && leb c 57

unfoldable pub is_ws_char : ℕ → Bool
is_ws_char c = c == 32 || c == 9 || c == 10 || c == 13

-- `skip_line` and `skip_block` are the loops inside a comment, and go on with the outer loop.
-- A line comment ends before its newline, which the outer loop then skips as white space.
unfoldable mutual
  unfolding is_ws_char

  pub skip_ws_and_comments : Bytes → Option Bytes
  skip_ws_and_comments [] = some []
  skip_ws_and_comments (c ∷ []) =
      if c == 0 then none else if is_ws_char c then some [] else some (c ∷ [])
  skip_ws_and_comments (c ∷ d ∷ rest) =
      let space = skip_ws_and_comments (d ∷ rest) in
      let line = skip_line rest in
      let block = skip_block rest in
      if c == 0
      then none
      else if is_ws_char c
      then space
      else if c == 47 && d == 47
      then line
      else if c == 47 && d == 42
      then block
      else some (c ∷ d ∷ rest)

  pub skip_line : Bytes → Option Bytes
  skip_line [] = some []
  skip_line (c ∷ rest) =
      let newline = skip_ws_and_comments rest in
      let more = skip_line rest in
      if c == 10 || c == 13 then newline else if c == 0 then none else more

  pub skip_block : Bytes → Option Bytes
  skip_block [] = none
  skip_block (c ∷ []) = none
  skip_block (c ∷ d ∷ rest) =
      let closed = skip_ws_and_comments rest in
      let more = skip_block (d ∷ rest) in
      if c == 0 then none else if c == 42 && d == 47 then closed else more

unfoldable pub consume_char : ℕ → Bytes → Option Bytes
consume_char want [] = none
consume_char want (c ∷ rest) = if c == want then some rest else none

-- The loop of `ParseQuotedString`, on the content read so far.
unfoldable pub quoted_content : Bytes → Bytes → Option (Bytes × Bytes)
quoted_content out [] = none
quoted_content out (c ∷ rest) =
    let more = quoted_content (out ++ c ∷ []) rest in
    if c == 0 then none else if c == 92 then none else if c == 34 then some (out, rest) else more

unfoldable pub parse_quoted_string : Bytes → Option (Bytes × Bytes)
unfolding consume_char quoted_content
parse_quoted_string s = consume_char 34 s >>= quoted_content []

unfoldable pub is_token_delimiter : Bytes → Bool
is_token_delimiter [] = true
is_token_delimiter (c ∷ rest) =
    c == 32 || c == 9 || c == 10 || c == 13 || c == 44 || c == 125 || c == 58 || c == 47 || c == 34

-- What follows the prefix `want`, if the text has it: `compare(pos, n, want) == 0`.
unfoldable pub strip_prefix : Bytes → Bytes → Option Bytes
strip_prefix [] s = some s
strip_prefix (w ∷ ws) [] = none
strip_prefix (w ∷ ws) (c ∷ s) = let more = strip_prefix ws s in if c == w then more else none
