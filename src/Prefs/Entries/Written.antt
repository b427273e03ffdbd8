-- ===== src/Prefs/Entries/Written.antt =====
-- The inner loop reads the lines that the writer produces.
use multi_addon_rss.Base.{
  Bytes, [], append_assoc, arith, codes, false, length, refl, some, suc, true, zero, ℕ, ◌++◌, ◌<◌,
  ◌∙◌, ◌∷◌, ◌≡◌, ◌≤◌,
}
use multi_addon_rss.Prefs.Build.{entry_line, json_tail}
use multi_addon_rss.Prefs.Chars.{
  consume_char, is_token_delimiter, is_ws_char, skip_ws_and_comments, strip_prefix,
}
use multi_addon_rss.Prefs.Chars.Tokens.{
  is_plain-all_digits, is_token_start, parse_quoted_string-plain, skip_token,
}
use multi_addon_rss.Prefs.Decimal.{decimal, ull_mod}
use multi_addon_rss.Prefs.Decimal.Value.{digits-decimal, parse-decimal}
use multi_addon_rss.Prefs.Entries.{
  Ids, again, closed, id_pair, id_value, ids_loop, ids_round, no_ids, ok,
}
use multi_addon_rss.Prefs.IdSet.{Ascends, Below, IdSet, insert, insert_last, member, member-Below}

abbrev true_after : Bytes → Bytes
true_after rest = codes "\": true" ++ rest

id_pair-written :
    (ids : Ids) (v : ℕ) (rest : Bytes)
    → 0 < v
    → v < ull_mod
    → member v ids.seen ≡ false
    → is_token_delimiter rest ≡ true
    → id_pair ids (34 ∷ (decimal v ++ true_after rest))
      ≡ some (record { parsed = insert v ids.parsed; seen = insert v ids.seen }, rest)
unfolding id_pair
id_pair-written ids v rest p q new delim =
    rw
      (
        parse_quoted_string-plain (decimal v) _ (is_plain-all_digits _ (digits-decimal v)),
        parse-decimal v p q,
        new,
      )
      (unfold skip_ws_and_comments consume_char id_value strip_prefix in rw delim)

-- The text behind "{" of the inner object: the lines, and what closes the document.
abbrev pub entries : IdSet → Bytes
entries [] = json_tail
entries (v ∷ []) = entry_line v false ++ json_tail
entries (v ∷ w ∷ vs) = entry_line v true ++ entries (w ∷ vs)

entry_line_comma :
    (v : ℕ) (rest : Bytes)
    → entry_line v true ++ rest
      ≡ 32 ∷ 32 ∷ 32 ∷ 32 ∷ 34 ∷ (decimal v ++ true_after (44 ∷ 10 ∷ rest))
unfolding entry_line
entry_line_comma v rest = simp append_assoc

entry_line_plain :
    (v : ℕ) (rest : Bytes)
    → entry_line v false ++ rest ≡ 32 ∷ 32 ∷ 32 ∷ 32 ∷ 34 ∷ (decimal v ++ true_after (10 ∷ rest))
unfolding entry_line
entry_line_plain v rest = simp append_assoc

skip_indent : (x : Bytes) → skip_ws_and_comments (10 ∷ 32 ∷ 32 ∷ 32 ∷ 32 ∷ 34 ∷ x) ≡ some (34 ∷ x)
unfolding skip_ws_and_comments
skip_indent x = skip_token 34 x (unfold is_token_start is_ws_char in refl)

abbrev both : IdSet → Ids
both ids = record { parsed = ids; seen = ids }

module _ (ids : IdSet) (v : ℕ) (positive : 0 < v) (small : v < ull_mod) (last : Below v ids) where
  pair :
      (rest : Bytes)
      → is_token_delimiter rest ≡ true
      → id_pair (both ids) (34 ∷ (decimal v ++ true_after rest)) ≡ some (both (ids ++ v ∷ []), rest)
  pair rest h = rw (
    id_pair-written (both ids) v rest positive small (member-Below v ids last) h,
    insert_last v ids last,
  )

  ids_round-comma :
      (rest : Bytes)
      → ids_round (both ids) (10 ∷ (entry_line v true ++ rest))
        ≡ some (again (both (ids ++ v ∷ [])) (10 ∷ rest))
  unfolding ids_round
  ids_round-comma rest =
      rw (entry_line_comma v rest, skip_indent)
        (unfold consume_char in
          rw (pair (44 ∷ 10 ∷ rest) (unfold is_token_delimiter in refl))
            (unfold skip_ws_and_comments in refl))

  ids_round-last :
      ids_round (both ids) (10 ∷ (entry_line v false ++ json_tail))
      ≡ some (closed (both (ids ++ v ∷ [])) (codes "\n}\n"))
  unfolding ids_round
  ids_round-last =
      rw (entry_line_plain v json_tail, skip_indent)
        (unfold consume_char in
          rw (pair (10 ∷ json_tail) (unfold is_token_delimiter in refl))
            (unfold skip_ws_and_comments in refl))

Below-snoc : (v n hi : ℕ) (ids : IdSet) → Below n ids → n ≤ hi → v < hi → Below hi (ids ++ v ∷ [])
Below-snoc v n hi [] p h q = omega arith
Below-snoc v n hi (x ∷ ids) p h q = (omega arith, Below-snoc v n hi ids p.1 h q)

ids_loop-entries :
    (f : ℕ) (ids : IdSet) (v lo : ℕ) (vs : IdSet)
    → length vs < f
    → Below v ids
    → lo < v
    → v < ull_mod
    → Ascends v vs
    → Below ull_mod vs
    → ids_loop f (both ids) (10 ∷ entries (v ∷ vs)) ≡ ok (both (ids ++ v ∷ vs), codes "\n}\n")
unfolding ids_loop
ids_loop-entries zero ids v lo vs h b p q a c = elim h [ ]
ids_loop-entries (suc f) ids v lo [] h b p q a c =
    rw (ids_round-last ids v (omega arith) q b, ids_loop)
ids_loop-entries (suc f) ids v lo (w ∷ vs) h b p q a c =
    rw (ids_round-comma ids v (omega arith) q b (entries (w ∷ vs)), ids_loop)
      (ids_loop-entries f (ids ++ v ∷ []) w v vs (omega arith)
          (Below-snoc v v w ids b (omega arith) a.0) a.0 c.0 a.1 c.1
        ∙ rw append_assoc)

-- From an empty start the loop collects the very ids that were written.
pub ids_loop-written :
    (f : ℕ) (ids : IdSet)
    → length ids < f
    → Ascends 0 ids
    → Below ull_mod ids
    → ids_loop f no_ids (10 ∷ entries ids) ≡ ok (record { parsed = ids; seen = ids }, codes "\n}\n")
unfolding ids_loop
ids_loop-written zero ids h a b = elim h [ ]
ids_loop-written (suc f) [] h a b = unfold ids_round skip_ws_and_comments consume_char in refl
ids_loop-written (suc f) (v ∷ vs) h a b =
    ids_loop-entries (suc f) [] v 0 vs (omega arith) tt a.0 b.0 a.1 b.1
