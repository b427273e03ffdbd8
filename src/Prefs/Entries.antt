-- ===== src/Prefs/Entries.antt =====
-- The inner loop of `ParseRssAssetPreferences`, over the members of "opt_out_steam_ids".
-- `bInnerNeedPair` is true whenever the loop tests it, and is left out; so is `bNeedPair`.
pub mod Fuel
pub mod Sound
pub mod Written
use multi_addon_rss.Base.{
  Bool, Bytes, Option, [], codes, false, guard, if◌then◌else◌, none, not, some, suc, true, zero, ℕ,
  ◌>>=◌, ◌>>◌,
}
use multi_addon_rss.Prefs.IdSet.{IdSet, insert, member}
use multi_addon_rss.Prefs.Chars.{
  consume_char, is_token_delimiter, parse_quoted_string, skip_ws_and_comments, strip_prefix,
}
use multi_addon_rss.Prefs.Decimal.{parse_decimal_ull}

-- `parsed` and `seenIds`.
pub record Ids : Type 0 where
  pub parsed : IdSet
  pub seen : IdSet

abbrev pub no_ids : Ids
no_ids = record { parsed = []; seen = [] }

-- A round of a loop goes on behind a comma, or ends with the closing brace.
pub data Round (S : Type 0) : Type 0 where
  again closed : S → Bytes → Round S

-- How the parse ends.
pub data Outcome (A : Type 0) : Type 0 where
  ok : A → Outcome A
  rejected out_of_fuel : Outcome A

unfoldable pub false_value : Bytes → Option (Bool × Bytes)
false_value s = do
  rest ← strip_prefix (codes "false") s
  guard (is_token_delimiter rest)
  some (false, rest)

-- `bValue`, and what follows it.
unfoldable pub id_value : Bytes → Option (Bool × Bytes)
unfolding false_value
id_value s = elim (strip_prefix (codes "true") s) [
  | none ↦ false_value s
  | some rest ↦ if is_token_delimiter rest then some (true, rest) else false_value s
]

-- `"<id>" : <bool>`
unfoldable pub id_pair : Ids → Bytes → Option (Ids × Bytes)
unfolding id_value
id_pair ids s = do
  (text, s₁) ← parse_quoted_string s
  id ← parse_decimal_ull text
  guard (not (member id ids.seen))
  s₂ ← skip_ws_and_comments s₁
  s₃ ← consume_char 58 s₂
  s₄ ← skip_ws_and_comments s₃
  (value, s₅) ← id_value s₄
  some (
    record {
      parsed = if value then insert id ids.parsed else ids.parsed;
      seen = insert id ids.seen;
    },
    s₅,
  )

-- Behind a value, in both loops.
unfoldable pub separator : {S : Type 0} → S → Bytes → Option (Round S)
separator st s = elim (consume_char 44 s) [
  | some rest ↦ some (again st rest)
  | none ↦ do rest ← consume_char 125 s; some (closed st rest)
]

unfoldable pub ids_round : Ids → Bytes → Option (Round Ids)
unfolding id_pair separator
ids_round ids s = do
  s₁ ← skip_ws_and_comments s
  elim (consume_char 125 s₁) [
    | some rest ↦ some (closed ids rest)
    | none ↦ do (ids', s₂) ← id_pair ids s₁; s₃ ← skip_ws_and_comments s₂; separator ids' s₃
  ]

-- `while (true)`, on fuel.
unfoldable pub ids_loop : ℕ → Ids → Bytes → Outcome (Ids × Bytes)
ids_loop zero ids s = out_of_fuel
ids_loop (suc f) ids s = elim (ids_round ids s) [
  | none ↦ rejected
  | some (closed ids' rest) ↦ ok (ids', rest)
  | some (again ids' rest) ↦ ids_loop f ids' rest
]
