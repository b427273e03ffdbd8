-- ===== src/Plugin/Config.antt =====
-- The ends of the lines of a file of commands do not matter.
use multi_addon_rss.Addons.{is_empty}
use multi_addon_rss.Base.{
  ==_iff, Bool, Bool-cases, Bytes, List, [], ap, arith, false, if◌then◌else◌, inl, inr, refl, some,
  sym, ℕ, ◌++◌, ◌==◌, ◌||◌, ◌∙◌, ◌∷◌, ◌≡◌,
}
use multi_addon_rss.Plugin.{commands_of, drop_return, parse_cfg, read_lines}

-- A text with each line feed behind a carriage return.
unfoldable pub with_returns : Bytes → Bytes
with_returns [] = []
with_returns (c ∷ s) = let rest = with_returns s in if c == 10 then 13 ∷ 10 ∷ rest else c ∷ rest

abbrev pub has_return : Bytes → Bool
has_return [] = false
has_return (c ∷ s) = c == 13 || has_return s

drop_return-kept : (line : Bytes) → has_return line ≡ false → drop_return line ≡ line
unfolding drop_return
drop_return-kept [] h = refl
drop_return-kept (c ∷ []) h = ground arith
drop_return-kept (c ∷ d ∷ s) h = ap (λ t. c ∷ t) (drop_return-kept (d ∷ s) (ground arith))

drop_return-snoc : (line : Bytes) → drop_return (line ++ 13 ∷ []) ≡ line
unfolding drop_return
drop_return-snoc [] = refl
drop_return-snoc (c ∷ []) = refl
drop_return-snoc (c ∷ d ∷ s) = ap (λ t. c ∷ t) (drop_return-snoc (d ∷ s))

has_return-snoc :
    (line : Bytes) (c : ℕ)
    → has_return line ≡ false
    → (c == 13) ≡ false
    → has_return (line ++ c ∷ []) ≡ false
has_return-snoc [] c h k = ground arith
has_return-snoc (d ∷ line) c h k = ground (arith, has_return-snoc line c)

read_lines_feed : (line s : Bytes) → read_lines line (10 ∷ s) ≡ line ∷ read_lines [] s
unfolding read_lines
read_lines_feed [] s = refl
read_lines_feed (c ∷ line) s = refl

read_lines_more :
    (line : Bytes) (c : ℕ) (s : Bytes)
    → (c == 10) ≡ false
    → read_lines line (c ∷ s) ≡ read_lines (line ++ c ∷ []) s
unfolding read_lines
read_lines_more [] c s h = rw h refl
read_lines_more (d ∷ line) c s h = rw h refl

-- The commands of a text, the line so far being `line`.
commands_from : Bytes → Bytes → List Bytes
commands_from line s = commands_of (read_lines line s)

commands_feed :
    (line other s t : Bytes)
    → drop_return line ≡ drop_return other
    → commands_from [] s ≡ commands_from [] t
    → commands_from line (10 ∷ s) ≡ commands_from other (10 ∷ t)
unfolding commands_from commands_of
commands_feed line other s t e k =
    ap commands_of (read_lines_feed line s)
    ∙ ap
        (λ d.
          if is_empty d then commands_of (read_lines [] s) else d ∷ commands_of (read_lines [] s))
        e
    ∙ ap (λ r. if is_empty (drop_return other) then r else drop_return other ∷ r) k
    ∙ sym (ap commands_of (read_lines_feed other t))

commands_returns :
    (line s : Bytes)
    → has_return line ≡ false
    → has_return s ≡ false
    → commands_from line (with_returns s) ≡ commands_from line s
unfolding with_returns commands_from
commands_returns line [] h k = refl
commands_returns line (c ∷ s) h k = elim (Bool-cases (c == 10)) [
  | inl e ↦ rw e (
      ap commands_of (read_lines_more line 13 (10 ∷ with_returns s) refl)
      ∙ commands_feed (line ++ 13 ∷ []) line (with_returns s) s
          (drop_return-snoc line ∙ sym (drop_return-kept line h))
          (commands_returns [] s refl (ground arith))
      ∙ ap (λ d. commands_from line (d ∷ s)) (sym ((==_iff c 10).0 e)))
  | inr e ↦ rw e (
      ap commands_of (read_lines_more line c (with_returns s) e)
      ∙ commands_returns (line ++ c ∷ []) s (has_return-snoc line c h (ground arith)) (ground arith)
      ∙ sym (ap commands_of (read_lines_more line c s e)))
]

-- A file of commands without carriage returns gives the server the same commands when each line feed
-- has a carriage return before it.
pub parse_cfg-with_returns :
    (text : Bytes)
    → has_return text ≡ false
    → parse_cfg (some (with_returns text)) ≡ parse_cfg (some text)
unfolding commands_from
parse_cfg-with_returns text h = commands_returns [] text refl h
