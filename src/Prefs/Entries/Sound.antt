-- ===== src/Prefs/Entries/Sound.antt =====
-- Whatever the inner loop collects is a set of valid ids.
use multi_addon_rss.Base.{
  Bool, Bytes, Ensures, Ensures-bind, Ensures-cases, Ensures-then, Option, arith, false, guard,
  if◌then◌else◌, meets, none, not, some, suc, true, zero, ℕ, ◌<◌, ◌≡◌,
}
use multi_addon_rss.Prefs.Chars.{consume_char, parse_quoted_string, skip_ws_and_comments}
use multi_addon_rss.Prefs.Chars.Shorter.{consume_char-Within}
use multi_addon_rss.Prefs.Decimal.{parse_decimal_ull, ull_mod}
use multi_addon_rss.Prefs.Decimal.Value.{parse_decimal_ull-IsDecimal}
use multi_addon_rss.Prefs.Entries.{
  Ids, Outcome, Round, again, closed, id_pair, id_value, ids_loop, ids_round, ok, out_of_fuel,
  rejected, separator,
}
use multi_addon_rss.Prefs.IdSet.{
  Ascends, Below, IdSet, insert, insert-Ascends, insert-Below, member, member-insert,
}

abbrev pub IsIdSet : IdSet → Type 0
IsIdSet ids = Ascends 0 ids × Below ull_mod ids

-- The sets of the inner loop are valid, and every id opted out was seen.
pub record IdsInv (ids : Ids) : Type 0 where
  pub parsed_valid : IsIdSet ids.parsed
  pub seen_valid : IsIdSet ids.seen
  pub parsed_seen : (x : ℕ) → member x ids.parsed ≡ true → member x ids.seen ≡ true

insert-IsIdSet :
    (id : ℕ) (ids : IdSet) → 0 < id → id < ull_mod → IsIdSet ids → IsIdSet (insert id ids)
insert-IsIdSet id ids p q v = (insert-Ascends id 0 ids v.0 p, insert-Below id ull_mod ids v.1 q)

insert-IdsInv :
    (id : ℕ) (value : Bool) (ids : Ids)
    → 0 < id
    → id < ull_mod
    → IdsInv ids
    → IdsInv (record {
      parsed = if value then insert id ids.parsed else ids.parsed;
      seen = insert id ids.seen;
    })
insert-IdsInv id true ids p q v = record {
  parsed_valid = insert-IsIdSet id ids.parsed p q v.parsed_valid;
  seen_valid = insert-IsIdSet id ids.seen p q v.seen_valid;
  parsed_seen = λ x.
      ground (arith, member-insert id x ids.parsed, member-insert id x ids.seen, v.parsed_seen x);
}
insert-IdsInv id false ids p q v = record {
  parsed_valid = v.parsed_valid;
  seen_valid = insert-IsIdSet id ids.seen p q v.seen_valid;
  parsed_seen = λ x. ground (arith, member-insert id x ids.seen, v.parsed_seen x);
}

id_pair-IdsInv : (ids : Ids) (s : Bytes) → IdsInv ids → Ensures (λ r. IdsInv r.0) (id_pair ids s)
unfolding id_pair
id_pair-IdsInv ids s v = Ensures-then (parse_quoted_string s) _ λ k _.
    Ensures-then (parse_decimal_ull k.0) _ λ id e.
      let d = parse_decimal_ull-IsDecimal k.0 id e in
      Ensures-then (guard (not (member id ids.seen))) _ λ _ _.
        Ensures-then (skip_ws_and_comments k.1) _ λ s₂ _.
          Ensures-then (consume_char 58 s₂) _ λ s₃ _.
            Ensures-then (skip_ws_and_comments s₃) _ λ s₄ _.
              Ensures-then (id_value s₄) _
                λ b _. meets {a = (_, b.1)} (insert-IdsInv id b.0 ids d.positive d.in_range v)

abbrev pub RoundSays : {S : Type 0} → (S → Type 0) → Round S → Type 0
RoundSays P (again st rest) = P st
RoundSays P (closed st rest) = P st

pub separator-RoundSays :
    {S : Type 0} (P : S → Type 0) (st : S) (s : Bytes)
    → P st
    → Ensures (RoundSays P) (separator st s)
unfolding separator
separator-RoundSays P st s p =
    Ensures-cases (consume_char 44 s) _ _ (consume_char-Within 44 s)
      (Ensures-then (consume_char 125 s) _ λ rest _. meets p) λ rest _. meets p

ids_round-IdsInv :
    (ids : Ids) (s : Bytes) → IdsInv ids → Ensures (RoundSays IdsInv) (ids_round ids s)
unfolding ids_round
ids_round-IdsInv ids s v = Ensures-then (skip_ws_and_comments s) _ λ s₁ _.
    Ensures-cases (consume_char 125 s₁) _ _ (consume_char-Within 125 s₁)
      (Ensures-bind (id_pair ids s₁) _ (id_pair-IdsInv ids s₁ v) λ r w.
        Ensures-then (skip_ws_and_comments r.1) _ λ s₃ _. separator-RoundSays IdsInv r.0 s₃ w)
      λ rest _. meets v

-- What an outcome says of its result, if it has one.
abbrev pub Says : {A : Type 0} → (A → Type 0) → Outcome A → Type 0
Says P (ok a) = P a
Says P rejected = Unit {0}
Says P out_of_fuel = Unit {0}

pub ids_loop-IdsInv :
    (f : ℕ) (ids : Ids) (s : Bytes) → IdsInv ids → Says (λ r. IdsInv r.0) (ids_loop f ids s)
unfolding ids_loop
ids_loop-IdsInv zero ids s v = tt
ids_loop-IdsInv (suc f) ids s v =
    go (ids_loop-IdsInv f) (ids_round ids s) (ids_round-IdsInv ids s v)
  where
    go :
        ((i : Ids) (rest : Bytes) → IdsInv i → Says (λ r. IdsInv r.0) (ids_loop f i rest))
        → (m : Option (Round Ids)) → Ensures (RoundSays IdsInv) m
        → Says
            (λ r. IdsInv r.0)
            (elim m [
              | none ↦ rejected
              | some (closed ids' rest) ↦ ok (ids', rest)
              | some (again ids' rest) ↦ ids_loop f ids' rest
            ])
    go ih none p = tt
    go ih (some (closed i rest)) (meets p) = p
    go ih (some (again i rest)) (meets p) = ih i rest p
