-- ===== src/Prefs/Parse.antt =====
-- `ParseRssAssetPreferences`: the outer loop, and the whole document.
pub mod Fuel
pub mod Sound
use multi_addon_rss.Base.{
  Bool, Bytes, Option, [], codes, equal, false, guard, if◌then◌else◌, length, none, not, some, suc,
  true, zero, ℕ, ◌&&◌, ◌==◌, ◌>>=◌, ◌>>◌, ◌||◌, ◌∷◌,
}
use multi_addon_rss.Prefs.IdSet.{IdSet}
use multi_addon_rss.Prefs.Chars.{
  consume_char, is_token_delimiter, parse_quoted_string, skip_ws_and_comments,
}
use multi_addon_rss.Prefs.Entries.{
  Ids, Outcome, Round, again, closed, ids_loop, no_ids, ok, out_of_fuel, rejected, separator,
}

-- The variables of the outer loop.
pub record Doc : Type 0 where
  pub ids : Ids
  pub seen_version : Bool
  pub seen_opt_out : Bool

abbrev pub empty_doc : Doc
empty_doc = record { ids = no_ids; seen_version = false; seen_opt_out = false }

abbrev pub lift : {A : Type 0} → Option A → Outcome A
lift none = rejected
lift (some a) = ok a

-- `then` of a chain that may run out of fuel.
abbrev pub and_then : {A B : Type 0} → Outcome A → (A → Outcome B) → Outcome B
and_then (ok a) f = f a
and_then rejected f = rejected
and_then out_of_fuel f = out_of_fuel

-- The value of "version" is the token `1`.
unfoldable pub version_value : Doc → Bytes → Option (Doc × Bytes)
version_value d s = do
  guard (not d.seen_version)
  rest ← consume_char 49 s
  guard (is_token_delimiter rest)
  some (record d { seen_version = true }, rest)

unfoldable pub opt_out_value : ℕ → Doc → Bytes → Outcome (Doc × Bytes)
opt_out_value f d s = and_then (lift (do guard (not d.seen_opt_out); consume_char 123 s)) λ rest.
    and_then (ids_loop f d.ids rest) λ r. ok (record d { ids = r.0; seen_opt_out = true }, r.1)

abbrev pub version_key : Bytes
version_key = codes "version"

abbrev pub opt_out_key : Bytes
opt_out_key = codes "opt_out_steam_ids"

-- A key, a colon, and what stands before the value.
unfoldable pub doc_key : Bytes → Option (Bytes × Bytes)
doc_key s = do
  (key, s₁) ← parse_quoted_string s
  s₂ ← skip_ws_and_comments s₁
  s₃ ← consume_char 58 s₂
  s₄ ← skip_ws_and_comments s₃
  some (key, s₄)

unfoldable pub doc_value : ℕ → Doc → Bytes → Bytes → Outcome (Doc × Bytes)
unfolding version_value opt_out_value
doc_value f d key s =
    if equal key version_key
    then lift (version_value d s)
    else if equal key opt_out_key
    then opt_out_value f d s
    else rejected

-- One round of the outer loop, behind the first `SkipWsAndComments`.
unfoldable pub doc_pair : ℕ → Doc → Bytes → Outcome (Round Doc)
unfolding doc_key doc_value
doc_pair f d s = and_then (lift (doc_key s)) λ k.
    and_then (doc_value f d k.0 k.1) λ r. lift (do s₁ ← skip_ws_and_comments r.1; separator r.0 s₁)

unfoldable pub doc_round : ℕ → Doc → Bytes → Outcome (Round Doc)
unfolding doc_pair
doc_round f d s =
    and_then (lift (skip_ws_and_comments s))
      λ s₁. elim (consume_char 125 s₁) [ some rest ↦ ok (closed d rest) | none ↦ doc_pair f d s₁ ]

-- `while (true)`, on fuel, which also bounds the inner loop.
unfoldable pub doc_loop : ℕ → Doc → Bytes → Outcome (Doc × Bytes)
doc_loop zero d s = out_of_fuel
doc_loop (suc f) d s = elim (doc_round f d s) [
  | rejected ↦ rejected
  | out_of_fuel ↦ out_of_fuel
  | ok (closed d' rest) ↦ ok (d', rest)
  | ok (again d' rest) ↦ doc_loop f d' rest
]

unfoldable pub has_nul : Bytes → Bool
has_nul [] = false
has_nul (c ∷ s) = c == 0 || has_nul s

unfoldable pub doc_start : Bytes → Option Bytes
unfolding has_nul
doc_start doc = do guard (not (has_nul doc)); s ← skip_ws_and_comments doc; consume_char 123 s

-- Behind the outer loop: both keys were seen, and nothing but white space and comments is left.
unfoldable pub doc_end : Doc → Bytes → Option IdSet
doc_end d s = do
  guard (d.seen_version && d.seen_opt_out)
  s₁ ← skip_ws_and_comments s
  elim s₁ [ [] ↦ some d.ids.parsed | _ ∷ _ ↦ none ]

unfoldable pub parse_with : ℕ → Bytes → Outcome IdSet
unfolding doc_start doc_end
parse_with f doc =
    and_then (lift (doc_start doc))
      λ s. and_then (doc_loop f empty_doc s) λ r. lift (doc_end r.0 r.1)

-- The result, and the new contents of `out`.
abbrev pub published : Outcome IdSet → IdSet → Bool × IdSet
published (ok ids) out = (true, ids)
published rejected out = (false, out)
published out_of_fuel out = (false, out)

unfoldable pub parse_rss_asset_preferences : Bytes → IdSet → Bool × IdSet
unfolding parse_with
parse_rss_asset_preferences doc out = published (parse_with (suc (length doc)) doc) out
