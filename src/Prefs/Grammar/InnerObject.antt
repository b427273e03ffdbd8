-- ===== src/Prefs/Grammar/InnerObject.antt =====
-- The inner loop reads the members that the grammar allows.
use multi_addon_rss.Base.{
  ==_iff, Bool, Bool-cases, Bytes, List, ap, arith, codes, false, if◌then◌else◌, inl, inr, refl,
  some, subst, suc, sym, true, zero, ℕ, ◌++◌, ◌<◌, ◌==◌, ◌||◌, ◌∙◌, ◌∷◌, ◌≡◌,
}
use multi_addon_rss.Prefs.Chars.{
  consume_char, is_token_delimiter, is_ws_char, skip_ws_and_comments, strip_prefix,
}
use multi_addon_rss.Prefs.Chars.Tokens.{
  is_plain-all_digits, is_token_start, parse_quoted_string-plain,
}
use multi_addon_rss.Prefs.Decimal.{decimal, ull_mod}
use multi_addon_rss.Prefs.Decimal.Value.{digits-decimal, parse-decimal}
use multi_addon_rss.Prefs.Entries.{
  Ids, Round, again, closed, false_value, id_pair, id_value, ids_loop, ids_round, ok, separator,
}
use multi_addon_rss.Prefs.Grammar.{
  AreMembers, Blank, Member, Members, and_more, bool_text, gap_text, has_id, is_gap, is_member,
  last_one, member_text, members_text, no_more, says_out,
}
use multi_addon_rss.Prefs.Grammar.Gaps.{delimiter_gap, skip_gap_token}
use multi_addon_rss.Prefs.IdSet.{IdSet, insert, member, member-insert}

-- The sets behind a member, and behind all of them.
abbrev pub with_member : Member → Ids → Ids
with_member m ids = record {
  parsed = if m.value then insert m.id ids.parsed else ids.parsed;
  seen = insert m.id ids.seen;
}

abbrev pub with_members : Members → Ids → Ids
with_members (no_more g) ids = ids
with_members (last_one m) ids = with_member m ids
with_members (and_more m ms) ids = with_members ms (with_member m ids)

abbrev pub members_count : Members → ℕ
members_count (no_more g) = 0
members_count (last_one m) = 0
members_count (and_more m ms) = suc (members_count ms)

id_value-bool_text :
    (v : Bool) (s : Bytes) → is_token_delimiter s ≡ true → id_value (bool_text v s) ≡ some (v, s)
unfolding id_value strip_prefix
id_value-bool_text true s h = rw h refl
id_value-bool_text false s h = unfold false_value in rw h refl

skip_bool_text :
    (g : List Blank) (v : Bool) (s : Bytes)
    → is_gap g ≡ true
    → skip_ws_and_comments (gap_text g (bool_text v s)) ≡ some (bool_text v s)
unfolding is_token_start is_ws_char
skip_bool_text g true s h = skip_gap_token g 116 (codes "rue" ++ s) h refl
skip_bool_text g false s h = skip_gap_token g 102 (codes "alse" ++ s) h refl

id_pair-member :
    (m : Member) (ids : Ids) (s : Bytes)
    → is_member m ≡ true
    → 0 < m.id
    → m.id < ull_mod
    → member m.id ids.seen ≡ false
    → is_token_delimiter s ≡ true
    → id_pair ids (
        34
        ∷ (decimal m.id
            ++ 34
              ∷ gap_text m.behind_key
                  (58 ∷ gap_text m.behind_colon (bool_text m.value (gap_text m.behind_value s)))))
      ≡ some (with_member m ids, gap_text m.behind_value s)
unfolding id_pair
id_pair-member m ids s h p q new delim =
    let behind = gap_text m.behind_value s in
    let key_gap : is_gap m.behind_key ≡ true = ground (arith, h) in
    let colon_gap : is_gap m.behind_colon ≡ true = ground (arith, h) in
    let value_gap : is_gap m.behind_value ≡ true = ground (arith, h) in
    rw
      (
        parse_quoted_string-plain (decimal m.id) _
            (is_plain-all_digits (decimal m.id) (digits-decimal m.id)),
        parse-decimal m.id p q,
        new,
        skip_gap_token m.behind_key 58 (gap_text m.behind_colon (bool_text m.value behind)) key_gap
            (unfold is_token_start is_ws_char in refl),
      )
      (unfold consume_char in
        rw
          (
            skip_bool_text m.behind_colon m.value behind colon_gap,
            id_value-bool_text m.value behind (delimiter_gap m.behind_value s value_gap delim),
          )
          refl)

-- A byte that ends a pair, and what the loops do there.
abbrev pub ends_pair : ℕ → Bool
ends_pair c = c == 44 || c == 125

abbrev pub separated : {S : Type 0} → ℕ → S → Bytes → Round S
separated c st s = if c == 44 then again st s else closed st s

pub separator-separated :
    {S : Type 0} (c : ℕ) (st : S) (s : Bytes)
    → ends_pair c ≡ true
    → separator st (c ∷ s) ≡ some (separated c st s)
unfolding separator consume_char
separator-separated c st s h = elim (Bool-cases (c == 44)) [
  | inl e ↦
      subst (λ d. separator st (d ∷ s) ≡ some (separated d st s)) (sym ((==_iff c 44).0 e)) refl
  | inr e ↦
      let k : (c == 125) ≡ true = ground (arith, h, e) in
      subst (λ d. separator st (d ∷ s) ≡ some (separated d st s)) (sym ((==_iff c 125).0 k)) refl
]

pub ends_pair_token : (c : ℕ) → ends_pair c ≡ true → is_token_start c ≡ true
unfolding is_token_start is_ws_char
ends_pair_token c h = ground arith

pub ends_pair_delimiter :
    (c : ℕ) (s : Bytes) → ends_pair c ≡ true → is_token_delimiter (c ∷ s) ≡ true
unfolding is_token_delimiter
ends_pair_delimiter c s h = ground arith

ids_round-member :
    (m : Member) (ids : Ids) (c : ℕ) (s : Bytes)
    → is_member m ≡ true
    → 0 < m.id
    → m.id < ull_mod
    → member m.id ids.seen ≡ false
    → ends_pair c ≡ true
    → ids_round ids (member_text m (c ∷ s)) ≡ some (separated c (with_member m ids) s)
unfolding ids_round
ids_round-member m ids c s h p q new e =
    let first_gap : is_gap m.before ≡ true = ground (arith, h) in
    let value_gap : is_gap m.behind_value ≡ true = ground (arith, h) in
    rw (skip_gap_token m.before 34 _ first_gap (unfold is_token_start is_ws_char in refl)) (
      unfold consume_char in
      rw
        (
          id_pair-member m ids (c ∷ s) h p q new (ends_pair_delimiter c s e),
          skip_gap_token m.behind_value c s value_gap (ends_pair_token c e),
        )
        (separator-separated c (with_member m ids) s e))

ids_round-closed :
    (g : List Blank) (ids : Ids) (s : Bytes)
    → is_gap g ≡ true
    → ids_round ids (gap_text g (125 ∷ s)) ≡ some (closed ids s)
unfolding ids_round
ids_round-closed g ids s h =
    rw (skip_gap_token g 125 s h (unfold is_token_start is_ws_char in refl))
      (unfold consume_char in refl)

-- The ids of the members are not among those seen.
abbrev pub AllUnseen : IdSet → Members → Type 0
AllUnseen seen ms = (x : ℕ) → has_id x ms ≡ true → member x seen ≡ false

unseen_more :
    (seen : IdSet) (m : Member) (ms : Members)
    → AllUnseen seen (and_more m ms)
    → has_id m.id ms ≡ false
    → AllUnseen (insert m.id seen) ms
unseen_more seen m ms u n x h = elim (Bool-cases (m.id == x)) [
  | inl e ↦ absurd (ground (arith, h, ap (λ y. has_id y ms) ((==_iff m.id x).0 e)))
  | inr e ↦ ground (arith, u x, member-insert m.id x seen)
]

-- With more fuel than members behind a comma, the inner loop reads the members to the end.
pub ids_loop-members :
    (f : ℕ) (ms : Members) (ids : Ids) (s : Bytes)
    → members_count ms < f
    → AreMembers ms
    → AllUnseen ids.seen ms
    → ids_loop f ids (members_text ms s) ≡ ok (with_members ms ids, s)
unfolding ids_loop
ids_loop-members zero ms ids s h a u = elim h [ ]
ids_loop-members (suc f) (no_more g) ids s h a u = rw (ids_round-closed g ids s a, ids_loop) refl
ids_loop-members (suc f) (last_one m) ids s h (a, p, q) u =
    let new = u m.id (ground arith) in
    rw (ids_round-member m ids 125 s a p q new refl, ids_loop) refl
ids_loop-members (suc f) (and_more m ms) ids s h ((a, p, q), n, more) u =
    let new = u m.id (ground arith) in
    rw (ids_round-member m ids 44 (members_text ms s) a p q new refl, ids_loop)
      (ids_loop-members f ms (with_member m ids) s (omega (arith, h)) more
        (unseen_more ids.seen m ms u n))

-- Which ids are opted out behind the members.
pub member-with_members :
    (ms : Members) (ids : Ids) (x : ℕ)
    → member x (with_members ms ids).parsed ≡ (member x ids.parsed || says_out x ms)
member-with_members (no_more g) ids x = ground arith
member-with_members (last_one m) ids x = ground (arith, member-insert m.id x ids.parsed)
member-with_members (and_more m ms) ids x =
    member-with_members ms (with_member m ids) x ∙ ground (arith, member-insert m.id x ids.parsed)
