-- ===== src/Prefs/Entries/Fuel.antt =====
-- The inner loop ends within as many rounds as the document has bytes.
use mathlib.Core.Bool.{Bool}
use multi_addon_rss.Base.{
  Bytes, Ensures, Ensures-bind, Ensures-cases, Ensures-if, Ensures-mono, Ensures-then, Option,
  arith, codes, false, guard, length, meets, none, not, some, suc, true, zero, ℕ, ◌<◌, ◌≤◌,
}
use multi_addon_rss.Prefs.Chars.{
  consume_char, is_token_delimiter, parse_quoted_string, skip_ws_and_comments, strip_prefix,
}
use multi_addon_rss.Prefs.Chars.Shorter.{
  Leaves, consume_char-Within, parse_quoted_string-Leaves, skip_ws_and_comments-Within,
  strip_prefix-Within,
}
use multi_addon_rss.Prefs.Decimal.{parse_decimal_ull}
use multi_addon_rss.Prefs.Entries.{
  Ids, Outcome, Round, again, closed, false_value, id_pair, id_value, ids_loop, ids_round, ok,
  out_of_fuel, rejected, separator,
}
use multi_addon_rss.Prefs.IdSet.{member}

false_value-Leaves : (s : Bytes) → Ensures (Leaves {A = Bool} (length s)) (false_value s)
unfolding false_value
false_value-Leaves s =
    Ensures-bind (strip_prefix (codes "false") s) _ (strip_prefix-Within (codes "false") s)
      λ rest h. Ensures-then (guard (is_token_delimiter rest)) _ λ _ _. meets {a = (false, rest)} h

id_value-Leaves : (s : Bytes) → Ensures (Leaves {A = Bool} (length s)) (id_value s)
unfolding id_value
id_value-Leaves s =
    Ensures-cases (strip_prefix (codes "true") s) _ _ (strip_prefix-Within (codes "true") s)
      (false_value-Leaves s)
      λ rest h. Ensures-if _ (meets {a = (true, rest)} h) (false_value-Leaves s)

pub id_pair-Leaves : (ids : Ids) (s : Bytes) → Ensures (λ r. length r.1 < length s) (id_pair ids s)
unfolding id_pair
id_pair-Leaves ids s = Ensures-bind (parse_quoted_string s) _ (parse_quoted_string-Leaves s) λ k h₁.
    Ensures-then (parse_decimal_ull k.0) _ λ id _.
      Ensures-then (guard (not (member id ids.seen))) _ λ _ _.
        Ensures-bind (skip_ws_and_comments k.1) _ (skip_ws_and_comments-Within k.1) λ s₂ h₂.
          Ensures-bind (consume_char 58 s₂) _ (consume_char-Within 58 s₂) λ s₃ h₃.
            Ensures-bind (skip_ws_and_comments s₃) _ (skip_ws_and_comments-Within s₃) λ s₄ h₄.
              Ensures-bind (id_value s₄) _ (id_value-Leaves s₄)
                λ v h₅. meets {a = (_, v.1)} (omega arith)

-- What is left behind a round.
abbrev pub RoundWithin : {S : Type 0} → ℕ → Round S → Type 0
RoundWithin n (again st rest) = length rest < n
RoundWithin n (closed st rest) = length rest < n

pub RoundWithin-mono :
    {S : Type 0} {m n : ℕ} {o : Option (Round S)}
    → m ≤ n
    → Ensures (RoundWithin m) o
    → Ensures (RoundWithin n) o
RoundWithin-mono {S} {m} {n} h e = Ensures-mono e step
  where
    step : (r : Round S) → RoundWithin m r → RoundWithin n r
    step (again st rest) p = omega arith
    step (closed st rest) p = omega arith

pub separator-RoundWithin :
    {S : Type 0} (st : S) (s : Bytes) → Ensures (RoundWithin (length s)) (separator st s)
unfolding separator
separator-RoundWithin st s =
    Ensures-cases (consume_char 44 s) _ _ (consume_char-Within 44 s)
      (Ensures-bind (consume_char 125 s) _ (consume_char-Within 125 s) λ rest h. meets h)
      λ rest h. meets h

pub ids_round-RoundWithin :
    (ids : Ids) (s : Bytes) → Ensures (RoundWithin (length s)) (ids_round ids s)
unfolding ids_round
ids_round-RoundWithin ids s =
    Ensures-bind (skip_ws_and_comments s) _ (skip_ws_and_comments-Within s) λ s₁ h₁.
      Ensures-cases (consume_char 125 s₁) _ _ (consume_char-Within 125 s₁)
        (Ensures-bind (id_pair ids s₁) _ (id_pair-Leaves ids s₁) λ r h₂.
          Ensures-bind (skip_ws_and_comments r.1) _ (skip_ws_and_comments-Within r.1)
            λ s₃ h₃. RoundWithin-mono (omega arith) (separator-RoundWithin r.0 s₃))
        λ rest h. meets (omega arith)

-- With more fuel than bytes the loop does not run out, and leaves a shorter rest.
abbrev pub Finishes : {A : Type 0} → ℕ → Outcome (A × Bytes) → Type 0
Finishes n (ok r) = length r.1 < n
Finishes n rejected = Unit {0}
Finishes n out_of_fuel = ⊥

pub Finishes-mono :
    {A : Type 0} (m n : ℕ) (o : Outcome (A × Bytes)) → m ≤ n → Finishes m o → Finishes n o
Finishes-mono m n (ok r) h p = omega arith
Finishes-mono m n rejected h p = tt
Finishes-mono m n out_of_fuel h p = absurd p

pub ids_loop-Finishes :
    (f : ℕ) (ids : Ids) (s : Bytes) → length s < f → Finishes (length s) (ids_loop f ids s)
unfolding ids_loop
ids_loop-Finishes zero ids s h = elim h [ ]
ids_loop-Finishes (suc f) ids s h =
    go (λ i rest p. ids_loop-Finishes f i rest (omega arith)) (ids_round ids s)
      (ids_round-RoundWithin ids s)
  where
    go :
        ((i : Ids) (rest : Bytes)
          → length rest < length s
          → Finishes (length rest) (ids_loop f i rest))
        → (m : Option (Round Ids)) → Ensures (RoundWithin (length s)) m
        → Finishes (length s) (elim m [
          | none ↦ rejected
          | some (closed ids' rest) ↦ ok (ids', rest)
          | some (again ids' rest) ↦ ids_loop f ids' rest
        ])
    go ih none p = tt
    go ih (some (closed i rest)) (meets p) = p
    go ih (some (again i rest)) (meets p) =
        Finishes-mono (length rest) (length s) (ids_loop f i rest) (omega arith) (ih i rest p)
