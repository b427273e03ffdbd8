-- ===== src/Prefs/Tests.antt =====
-- Runs of the preference helpers, some of them from tests/rss_preferences_tests.cpp.
use multi_addon_rss.Base.{
  Bool, Bytes, List, [], arith, codes, equal, false, if◌then◌else◌, refl, some, suc, true, ℕ, ◌+◌,
  ◌==◌, ◌↔◌, ◌∷◌, ◌≡◌, ◌⊎◌,
}
use multi_addon_rss.Prefs.Build.{build_rss_asset_preferences_json}
use multi_addon_rss.Prefs.Change.{apply_rss_preference_change, set_member}
use multi_addon_rss.Prefs.Change.Outcomes.{change_persisted, change_rolled_back}
use multi_addon_rss.Prefs.Chars.{
  consume_char, is_digit_char, is_token_delimiter, parse_quoted_string, quoted_content,
  skip_ws_and_comments, strip_prefix,
}
use multi_addon_rss.Prefs.Decimal.{decimal, parse_decimal_ull}
use multi_addon_rss.Prefs.Decimal.Value.{IsDecimal, parse_decimal_ull_iff}
use multi_addon_rss.Prefs.Entries.{ids_loop, ids_round, ok, rejected}
use multi_addon_rss.Prefs.Entries.Sound.{IsIdSet}
use multi_addon_rss.Prefs.IdSet.{IdSet, insert, member}
use multi_addon_rss.Prefs.Legacy.{
  collect_legacy_opt_out_ids, collect_lines, legacy_id, trim_newlines,
}
use multi_addon_rss.Prefs.Legacy.Lines.{HoldIds, NoRepeat, collect_legacy_lines_iff}
use multi_addon_rss.Prefs.Parse.{doc_loop, doc_round, parse_rss_asset_preferences, parse_with}
use multi_addon_rss.Prefs.Parse.Fuel.{parse_with_total}
use multi_addon_rss.Prefs.Parse.Sound.{parse-IsIdSet}
use multi_addon_rss.Prefs.RoundTrip.{parse-build}

abbrev Parses : Bytes → IdSet → Type 0
Parses doc ids = parse_rss_asset_preferences doc (12345 ∷ []) ≡ (true, ids)

abbrev Rejects : Bytes → Type 0
Rejects doc = parse_rss_asset_preferences doc (12345 ∷ []) ≡ (false, 12345 ∷ [])

parse_valid :
    Parses
      (codes "{\"version\": 1, \"opt_out_steam_ids\": {\"111\": true, \"222\": false}}")
      (111 ∷ [])
    × Parses
        (codes
          "{\n  // leading\n  \"opt_out_steam_ids\": {\n \"7656\": true,\n  }, /* b */\n \"version\": 1,\n}")
        (7656 ∷ [])
unfolding parse_rss_asset_preferences doc_loop doc_round ids_loop ids_round skip_ws_and_comments
    consume_char quoted_content parse_quoted_string strip_prefix is_token_delimiter
    parse_decimal_ull member insert equal is_digit_char
parse_valid = (refl, refl)

parse_invalid :
    Rejects (codes "{\"version\": 01, \"opt_out_steam_ids\": {}}")
    × Rejects (codes "{\"version\": 1, \"opt_out_steam_ids\": {\"1\": tr/**/ue}}")
    × Rejects (codes "{\"version\":1,\"opt_out_steam_ids\":{\"1\":false,\"01\":true}}")
    × Rejects (codes "{\"version\": 1, \"opt_out_steam_ids\": {\"1\": true}} /* oops")
unfolding parse_rss_asset_preferences doc_loop doc_round ids_loop ids_round skip_ws_and_comments
    consume_char quoted_content parse_quoted_string strip_prefix is_token_delimiter
    parse_decimal_ull member insert equal is_digit_char
parse_invalid = (refl, refl, refl, refl)

build_two :
    Parses
      (build_rss_asset_preferences_json (3777226686 ∷ 18446744073709551615 ∷ []))
      (3777226686 ∷ 18446744073709551615 ∷ [])
unfolding build_rss_asset_preferences_json decimal parse_rss_asset_preferences doc_loop doc_round
    ids_loop ids_round skip_ws_and_comments consume_char quoted_content parse_quoted_string
    strip_prefix is_token_delimiter parse_decimal_ull member insert equal is_digit_char
build_two = refl

two_ids-IsIdSet : IsIdSet (111 ∷ 222 ∷ [])
two_ids-IsIdSet = ((omega arith, (omega arith, tt)), (omega arith, (omega arith, tt)))

parse-build_example :
    parse_rss_asset_preferences (build_rss_asset_preferences_json (111 ∷ 222 ∷ [])) []
    ≡ (true, 111 ∷ 222 ∷ [])
parse-build_example = parse-build (111 ∷ 222 ∷ []) [] two_ids-IsIdSet.0 two_ids-IsIdSet.1

parse-IsIdSet_example :
    let r = parse_rss_asset_preferences (codes "{\"version\": 1}") (5 ∷ []) in
    ((r.0 ≡ true) × IsIdSet r.1) ⊎ ((r.0 ≡ false) × (r.1 ≡ 5 ∷ []))
parse-IsIdSet_example = parse-IsIdSet (codes "{\"version\": 1}") (5 ∷ [])

parse_with_total_example :
    (parse_with 5 (codes "{}//") ≡ rejected)
    ⊎ ((ids : IdSet) × (parse_with 5 (codes "{}//") ≡ ok ids))
parse_with_total_example = parse_with_total 5 (codes "{}//") (omega arith)

parse_decimal_ull_iff_example :
    (parse_decimal_ull (codes "042") ≡ some 42) ↔ IsDecimal (codes "042") 42
parse_decimal_ull_iff_example = parse_decimal_ull_iff (codes "042") 42

collect_legacy_lines_iff_example :
    (collect_legacy_opt_out_ids (codes "12\n" ∷ []) true [] ≡ (true, 12 ∷ [])) ↔ (
      (true ≡ true)
      × ((found : List ℕ) × HoldIds (codes "12\n" ∷ []) found
          × NoRepeat found
          × IsIdSet (12 ∷ [])
          × ((x : ℕ) → member x (12 ∷ []) ≡ member x found)))
collect_legacy_lines_iff_example = collect_legacy_lines_iff (codes "12\n" ∷ []) true [] (12 ∷ [])

collect_two :
    collect_legacy_opt_out_ids (codes "12\r\n" ∷ codes "7\n" ∷ []) true [] ≡ (true, 7 ∷ 12 ∷ [])
unfolding collect_legacy_opt_out_ids collect_lines legacy_id trim_newlines parse_decimal_ull member
    insert is_digit_char
collect_two = refl

-- A store that counts its writes, and one that fails.
abbrev saves : IdSet → ℕ → Bool × ℕ
saves ids w = (true, suc w)

abbrev fails : IdSet → ℕ → Bool × ℕ
fails ids w = (false, suc w)

abbrev clears : ℕ → ℕ
clears w = w + 10

is_member : member 7 (7 ∷ []) ≡ true
unfolding member
is_member = refl

not_member : member 8 (7 ∷ []) ≡ false
unfolding member
not_member = refl

change_persisted_example :
    let c = apply_rss_preference_change saves clears true (7 ∷ []) 7 true 0 in
    (c.result ≡ true)
    × (c.latch ≡ true)
    × (c.world ≡ clears (saves (set_member 7 true (7 ∷ [])) 0).1)
    × ((x : ℕ) → member x c.members ≡ (if 7 == x then false else member x (7 ∷ [])))
change_persisted_example =
    change_persisted saves clears (7 ∷ []) 7 true 0 (omega arith, tt) (omega arith) is_member refl

change_rolled_back_example :
    apply_rss_preference_change fails clears true (7 ∷ []) 8 false 0
    ≡ record { result = false; latch = false; members = 7 ∷ []; world = 1 }
change_rolled_back_example =
    change_rolled_back fails clears (7 ∷ []) 8 false 0 (omega arith, tt) (omega arith) not_member
      refl
