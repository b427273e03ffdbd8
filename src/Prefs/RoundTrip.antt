-- ===== src/Prefs/RoundTrip.antt =====
-- What `BuildRssAssetPreferencesJson` writes, `ParseRssAssetPreferences` reads.
use multi_addon_rss.Base.{
  Bool, Bytes, [], ap, append_assoc, arith, codes, equal, false, length, length-append, ltb, refl,
  suc, true, zero, ℕ, ◌++◌, ◌+◌, ◌<◌, ◌∙◌, ◌∷◌, ◌≡◌, ◌≤◌,
}
use multi_addon_rss.Prefs.Build.{
  append_entries, build_rss_asset_preferences_json, entry_line, json_head, json_tail,
}
use multi_addon_rss.Prefs.Chars.{
  consume_char, is_digit_char, is_token_delimiter, parse_quoted_string, quoted_content,
  skip_ws_and_comments,
}
use multi_addon_rss.Prefs.Decimal.{all_digits, decimal, ull_mod}
use multi_addon_rss.Prefs.Decimal.Value.{digits-decimal, length-decimal}
use multi_addon_rss.Prefs.Entries.{again, closed, ok, separator}
use multi_addon_rss.Prefs.Entries.Written.{entries, ids_loop-written}
use multi_addon_rss.Prefs.IdSet.{Ascends, Below, IdSet}
use multi_addon_rss.Prefs.Parse.{
  Doc, and_then, doc_end, doc_loop, doc_pair, doc_round, empty_doc, has_nul, lift,
  parse_rss_asset_preferences, parse_with, published,
}

append_entries-entries :
    (json : Bytes) (index size : ℕ) (ids : IdSet)
    → index + length ids ≡ size
    → append_entries json index size ids ++ json_tail ≡ json ++ entries ids
unfolding append_entries
append_entries-entries json index size [] h = refl
append_entries-entries json index size (v ∷ []) h =
    let e : ltb (index + 1) size ≡ false = ground arith in rw e (append_assoc json _ _)
append_entries-entries json index size (v ∷ w ∷ vs) h =
    let e : ltb (index + 1) size ≡ true = ground arith in
    rw e (
      append_entries-entries (json ++ entry_line v true) (index + 1) size (w ∷ vs) (omega arith)
      ∙ append_assoc json (entry_line v true) _)

pub build-entries : (ids : IdSet) → build_rss_asset_preferences_json ids ≡ json_head ++ entries ids
unfolding build_rss_asset_preferences_json
build-entries ids = append_entries-entries json_head 0 (length ids) ids (omega arith)

-- Each line that the writer formats for a 64-bit id fits `szLine[64]` with its terminator.
pub length-entry_line : (v : ℕ) (comma : Bool) → v < ull_mod → length (entry_line v comma) < 64
unfolding entry_line
length-entry_line v true h =
    omega (arith, length-append (decimal v) (codes "\": true,\n"), length-decimal v h)
length-entry_line v false h =
    omega (arith, length-append (decimal v) (codes "\": true\n"), length-decimal v h)

abbrev version_rest : Bytes → Bytes
version_rest rest = codes "\n  \"opt_out_steam_ids\": {\n" ++ rest

abbrev head_rest : Bytes → Bytes
head_rest rest =
    codes "\n"
    ++ (codes "  // true skips the five staged RSS asset checks and fast-mounts cached assets.\n"
        ++ (codes "  // Missing IDs default to ON and use the normal staged download flow.\n"
            ++ (codes "  \"version\": 1," ++ version_rest rest)))

-- The first round of the outer loop reads the version, the second one the ids.
version_round :
    (f : ℕ) (rest : Bytes)
    → doc_round f empty_doc (head_rest rest)
      ≡ ok (again (record empty_doc { seen_version = true }) (version_rest rest))
unfolding doc_round doc_pair skip_ws_and_comments consume_char quoted_content parse_quoted_string
    separator equal is_token_delimiter
version_round f rest = refl

ids_doc_round :
    (f : ℕ) (ids : IdSet)
    → length ids < f
    → Ascends 0 ids
    → Below ull_mod ids
    → doc_round f (record empty_doc { seen_version = true }) (version_rest (entries ids))
      ≡ ok (
          closed
            (record {
              ids = record { parsed = ids; seen = ids };
              seen_version = true;
              seen_opt_out = true;
            })
            (codes "\n"))
unfolding doc_round doc_pair skip_ws_and_comments consume_char quoted_content parse_quoted_string
    separator equal
ids_doc_round f ids h a b = rw (ids_loop-written f ids h a b)

has_nul-append : (x y : Bytes) → has_nul x ≡ false → has_nul y ≡ false → has_nul (x ++ y) ≡ false
unfolding has_nul
has_nul-append [] y h k = k
has_nul-append (c ∷ x) y h k = ground (arith, has_nul-append x y)

has_nul-all_digits : (x : Bytes) → all_digits x ≡ true → has_nul x ≡ false
unfolding has_nul all_digits is_digit_char
has_nul-all_digits [] h = refl
has_nul-all_digits (c ∷ x) h = ground (arith, has_nul-all_digits x)

has_nul-entry_line : (v : ℕ) (comma : Bool) → has_nul (entry_line v comma) ≡ false
unfolding entry_line has_nul
has_nul-entry_line v true =
    has_nul-append (decimal v) _ (has_nul-all_digits (decimal v) (digits-decimal v)) refl
has_nul-entry_line v false =
    has_nul-append (decimal v) _ (has_nul-all_digits (decimal v) (digits-decimal v)) refl

has_nul-entries : (ids : IdSet) → has_nul (entries ids) ≡ false
has_nul-entries [] = unfold has_nul in refl
has_nul-entries (v ∷ []) =
    has_nul-append (entry_line v false) json_tail (has_nul-entry_line v false)
      (unfold has_nul in refl)
has_nul-entries (v ∷ w ∷ vs) =
    has_nul-append (entry_line v true) (entries (w ∷ vs)) (has_nul-entry_line v true)
      (has_nul-entries (w ∷ vs))

length-entry_line_pos : (v : ℕ) (comma : Bool) → 0 < length (entry_line v comma)
unfolding entry_line
length-entry_line_pos v comma = omega arith

length-entries : (ids : IdSet) → length ids ≤ length (entries ids)
length-entries [] = omega arith
length-entries (v ∷ []) =
    omega (arith, length-append (entry_line v false) json_tail, length-entry_line_pos v false)
length-entries (v ∷ w ∷ vs) = omega (
  arith,
  length-append (entry_line v true) (entries (w ∷ vs)),
  length-entry_line_pos v true,
  length-entries (w ∷ vs),
)

abbrev read_doc : IdSet → Doc
read_doc ids = record {
  ids = record { parsed = ids; seen = ids };
  seen_version = true;
  seen_opt_out = true;
}

doc_loop-entries :
    (f : ℕ) (ids : IdSet)
    → length ids < f
    → Ascends 0 ids
    → Below ull_mod ids
    → doc_loop (suc (suc f)) empty_doc (head_rest (entries ids)) ≡ ok (read_doc ids, codes "\n")
doc_loop-entries f ids h a b =
    unfold doc_loop in
    rw (version_round (suc f) (entries ids), doc_loop) (rw (ids_doc_round f ids h a b, doc_loop))

parse_with-entries :
    (f : ℕ) (ids : IdSet)
    → suc (suc (length ids)) < f
    → Ascends 0 ids
    → Below ull_mod ids
    → parse_with f (json_head ++ entries ids) ≡ ok ids
unfolding parse_with skip_ws_and_comments consume_char
parse_with-entries zero ids h a b = elim h [ ]
parse_with-entries (suc zero) ids h a b = absurd (omega arith)
parse_with-entries (suc (suc f)) ids h a b =
    rw (has_nul-append json_head (entries ids) (unfold has_nul in refl) (has_nul-entries ids)) (
      ap (λ o. and_then o (λ r. lift (doc_end r.0 r.1))) (doc_loop-entries f ids (omega arith) a b))

-- A set of nonzero 64-bit ids, ascending without repeats, that `BuildRssAssetPreferencesJson` writes
-- is read back unchanged by `ParseRssAssetPreferences`, whatever `out` held before.
pub parse-build :
    (ids out : IdSet)
    → Ascends 0 ids
    → Below ull_mod ids
    → parse_rss_asset_preferences (build_rss_asset_preferences_json ids) out ≡ (true, ids)
unfolding parse_rss_asset_preferences
parse-build ids out a b = rw build-entries (
    ap (λ o. published o out)
      (parse_with-entries (suc (length (json_head ++ entries ids))) ids
        (omega (arith, length-entries ids)) a b))
