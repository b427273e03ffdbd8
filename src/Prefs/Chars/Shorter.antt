-- ===== src/Prefs/Chars/Shorter.antt =====
-- Each step of the scanner leaves a shorter rest, or, for white space, one that is no longer.
use multi_addon_rss.Base.{
  Bytes, Ensures, Ensures-bind, Ensures-if, Ensures-mono, Option, [], arith, length, meets, refused,
  ℕ, ◌++◌, ◌<◌, ◌==◌, ◌∷◌, ◌≤◌,
}
use multi_addon_rss.Prefs.Chars.{
  consume_char, parse_quoted_string, quoted_content, skip_block, skip_line, skip_ws_and_comments,
  strip_prefix,
}

-- At most `n` bytes are left.
abbrev pub Within : ℕ → Bytes → Type 0
Within n r = length r ≤ n

-- At most `n` bytes are left behind a value.
abbrev pub Leaves : {A : Type 0} → ℕ → A × Bytes → Type 0
Leaves n r = length r.1 ≤ n

pub Within-mono :
    {n : ℕ} {m : Option Bytes} (k : ℕ) → n ≤ k → Ensures (Within n) m → Ensures (Within k) m
Within-mono k h e = Ensures-mono e (λ r p. omega arith)

mutual
  unfolding skip_ws_and_comments skip_line skip_block

  skip-Within : (s : Bytes) → Ensures (Within (length s)) (skip_ws_and_comments s)
  skip-Within [] = meets (omega arith)
  skip-Within (c ∷ []) =
      Ensures-if _ refused (Ensures-if _ (meets (omega arith)) (meets (omega arith)))
  skip-Within (c ∷ d ∷ rest) =
      let n : ℕ = length (c ∷ d ∷ rest) in
      let space = Within-mono n (omega arith) (skip-Within (d ∷ rest)) in
      let line = Within-mono n (omega arith) (skip_line-Within rest) in
      let block = Within-mono n (omega arith) (skip_block-Within rest) in
      Ensures-if _ refused
        (Ensures-if _ space (Ensures-if _ line (Ensures-if _ block (meets (omega arith)))))

  skip_line-Within : (s : Bytes) → Ensures (Within (length s)) (skip_line s)
  skip_line-Within [] = meets (omega arith)
  skip_line-Within (c ∷ rest) =
      let n : ℕ = length (c ∷ rest) in
      Ensures-if _ (Within-mono n (omega arith) (skip-Within rest))
        (Ensures-if _ refused (Within-mono n (omega arith) (skip_line-Within rest)))

  skip_block-Within : (s : Bytes) → Ensures (Within (length s)) (skip_block s)
  skip_block-Within [] = refused
  skip_block-Within (c ∷ []) = refused
  skip_block-Within (c ∷ d ∷ rest) =
      let n : ℕ = length (c ∷ d ∷ rest) in
      Ensures-if _ refused (
        Ensures-if _ (Within-mono n (omega arith) (skip-Within rest))
          (Within-mono n (omega arith) (skip_block-Within (d ∷ rest))))

pub skip_ws_and_comments-Within : (s : Bytes) → Ensures (Within (length s)) (skip_ws_and_comments s)
skip_ws_and_comments-Within s = skip-Within s

pub consume_char-Within :
    (c : ℕ) (s : Bytes) → Ensures (λ r. length r < length s) (consume_char c s)
unfolding consume_char
consume_char-Within c [] = refused
consume_char-Within c (d ∷ s) = Ensures-if _ (meets (omega arith)) refused

quoted_content-Leaves :
    (s out : Bytes) → Ensures (λ r. length r.1 < length s) (quoted_content out s)
unfolding quoted_content
quoted_content-Leaves [] out = refused
quoted_content-Leaves (c ∷ s) out = Ensures-if (c == 0) refused (
    Ensures-if (c == 92) refused (
      Ensures-if (c == 34) (meets {a = (out, s)} (omega arith))
        (Ensures-mono (quoted_content-Leaves s (out ++ c ∷ [])) (λ r p. omega arith))))

pub parse_quoted_string-Leaves :
    (s : Bytes) → Ensures (λ r. length r.1 < length s) (parse_quoted_string s)
unfolding parse_quoted_string
parse_quoted_string-Leaves s =
    Ensures-bind (consume_char 34 s) (quoted_content []) (consume_char-Within 34 s)
      λ t p. Ensures-mono (quoted_content-Leaves t []) (λ r q. omega arith)

pub strip_prefix-Within : (w s : Bytes) → Ensures (Within (length s)) (strip_prefix w s)
unfolding strip_prefix
strip_prefix-Within [] s = meets (omega arith)
strip_prefix-Within (c ∷ w) [] = refused
strip_prefix-Within (c ∷ w) (d ∷ s) =
    Ensures-if _ (Within-mono (length (d ∷ s)) (omega arith) (strip_prefix-Within w s)) refused
