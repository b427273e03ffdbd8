-- ===== src/Prefs/Legacy.antt =====
-- `CollectLegacyOptOutIds`, over the lines of the legacy text file.
pub mod Text
pub mod Lines
use multi_addon_rss.Base.{
  Bool, Bytes, List, Option, [], false, if◌then◌else◌, none, not, some, true, ℕ, ◌==◌, ◌||◌, ◌∷◌,
}
use multi_addon_rss.Prefs.Decimal.{parse_decimal_ull}
use multi_addon_rss.Prefs.IdSet.{IdSet, insert, member}

-- `while (!digits.empty() && (digits.back() is a newline)) digits.pop_back();`
unfoldable pub trim_newlines : Bytes → Bytes
trim_newlines [] = []
trim_newlines (c ∷ s) = elim (trim_newlines s) [
  | [] ↦ if c == 10 || c == 13 then [] else c ∷ []
  | d ∷ r ↦ c ∷ d ∷ r
]

-- The loop, on the ids parsed so far. An empty line, and one that holds only a line end, have no
-- decimal number in them; the tests for them stand in `legacy_id`.
unfoldable pub legacy_id : Bytes → Option ℕ
legacy_id [] = none
legacy_id (c ∷ line) = elim (trim_newlines (c ∷ line)) [
  | [] ↦ none
  | d ∷ digits ↦ parse_decimal_ull (d ∷ digits)
]

unfoldable pub collect_lines : IdSet → List Bytes → Option IdSet
collect_lines parsed [] = some parsed
collect_lines parsed (line ∷ lines) = elim (legacy_id line) [
  | none ↦ none
  | some id ↦
      let more = collect_lines (insert id parsed) lines in if member id parsed then none else more
]

-- The result, and the new contents of `out`.
unfoldable pub collect_legacy_opt_out_ids : List Bytes → Bool → IdSet → Bool × IdSet
unfolding collect_lines
collect_legacy_opt_out_ids lines read_ok out =
    if not read_ok
    then (false, out)
    else elim (collect_lines [] lines) [ none ↦ (false, out) | some ids ↦ (true, ids) ]
