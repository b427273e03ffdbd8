-- ===== src/Prefs/Parse/Fuel.antt =====
-- The parse ends: more rounds than the document has bytes are enough.
use mathlib.Core.Bool.{Bool}
use multi_addon_rss.Base.{
  Bytes, Ensures, Ensures-bind, Ensures-mono, Ensures-then, Option, arith, equal, false, guard,
  if◌then◌else◌, inl, inr, length, meets, none, not, refl, some, suc, true, zero, ℕ, ◌<◌, ◌≡◌, ◌≤◌,
  ◌⊎◌,
}
use multi_addon_rss.Prefs.Chars.{
  consume_char, is_token_delimiter, parse_quoted_string, skip_ws_and_comments,
}
use multi_addon_rss.Prefs.Chars.Shorter.{
  Leaves, Within, consume_char-Within, parse_quoted_string-Leaves, skip_ws_and_comments-Within,
}
use multi_addon_rss.Prefs.Entries.{
  Outcome, Round, again, closed, ids_loop, ok, out_of_fuel, rejected,
}
use multi_addon_rss.Prefs.Entries.Fuel.{
  Finishes, Finishes-mono, RoundWithin, RoundWithin-mono, ids_loop-Finishes, separator-RoundWithin,
}
use multi_addon_rss.Prefs.IdSet.{IdSet}
use multi_addon_rss.Prefs.Parse.{
  Doc, and_then, doc_end, doc_key, doc_loop, doc_pair, doc_round, doc_start, doc_value, empty_doc,
  has_nul, lift, opt_out_key, opt_out_value, parse_with, version_key, version_value,
}

-- What an outcome says of its result; running out of fuel is excluded.
abbrev pub Ends : {A : Type 0} → (A → Type 0) → Outcome A → Type 0
Ends P (ok a) = P a
Ends P rejected = Unit {0}
Ends P out_of_fuel = ⊥

Ends-lift : {A : Type 0} {P : A → Type 0} (m : Option A) → Ensures P m → Ends P (lift m)
Ends-lift none p = tt
Ends-lift (some a) (meets p) = p

Ends-and_then :
    {A B : Type 0} (P : A → Type 0) (Q : B → Type 0) (m : Outcome A) (f : A → Outcome B)
    → Ends P m
    → ((a : A) → P a → Ends Q (f a))
    → Ends Q (and_then m f)
Ends-and_then P Q (ok a) f p k = k a p
Ends-and_then P Q rejected f p k = tt
Ends-and_then P Q out_of_fuel f p k = absurd p

Ends-if :
    {A : Type 0} (P : A → Type 0) (b : Bool) (x y : Outcome A)
    → Ends P x
    → Ends P y
    → Ends P (if b then x else y)
Ends-if P true x y p q = p
Ends-if P false x y p q = q

Finishes-Ends :
    {A : Type 0} (n : ℕ) (o : Outcome (A × Bytes)) → Finishes n o → Ends (Leaves {A = A} n) o
Finishes-Ends n (ok r) p = omega arith
Finishes-Ends n rejected p = tt
Finishes-Ends n out_of_fuel p = p

version_value-Leaves :
    (d : Doc) (s : Bytes) → Ensures (Leaves {A = Doc} (length s)) (version_value d s)
unfolding version_value
version_value-Leaves d s = Ensures-then (guard (not d.seen_version)) _ λ _ _.
    Ensures-bind (consume_char 49 s) _ (consume_char-Within 49 s) λ rest h.
      Ensures-then (guard (is_token_delimiter rest)) _ λ _ _. meets {a = (_, rest)} (omega arith)

opt_out_value-Leaves :
    (f : ℕ) (d : Doc) (s : Bytes)
    → length s < f
    → Ends (Leaves {A = Doc} (length s)) (opt_out_value f d s)
unfolding opt_out_value
opt_out_value-Leaves f d s h =
    Ends-and_then (λ r. length r < length s) (Leaves (length s)) _ _
      (Ends-lift _ (Ensures-then (guard (not d.seen_opt_out)) _ λ _ _. consume_char-Within 123 s))
      λ rest p.
        Ends-and_then (Leaves (length rest)) (Leaves (length s)) _ _
          (Finishes-Ends (length rest) (ids_loop f d.ids rest)
            (ids_loop-Finishes f d.ids rest (omega arith)))
          λ r q. omega arith

doc_key-Leaves : (s : Bytes) → Ensures (λ r. length r.1 < length s) (doc_key s)
unfolding doc_key
doc_key-Leaves s = Ensures-bind (parse_quoted_string s) _ (parse_quoted_string-Leaves s) λ k h₁.
    Ensures-bind (skip_ws_and_comments k.1) _ (skip_ws_and_comments-Within k.1) λ s₂ h₂.
      Ensures-bind (consume_char 58 s₂) _ (consume_char-Within 58 s₂) λ s₃ h₃.
        Ensures-bind (skip_ws_and_comments s₃) _ (skip_ws_and_comments-Within s₃)
          λ s₄ h₄. meets {a = (k.0, s₄)} (omega arith)

doc_value-Leaves :
    (f : ℕ) (d : Doc) (key s : Bytes)
    → length s < f
    → Ends (Leaves {A = Doc} (length s)) (doc_value f d key s)
unfolding doc_value
doc_value-Leaves f d key s h =
    Ends-if (Leaves (length s)) (equal key version_key) _ _ (Ends-lift _ (version_value-Leaves d s))
      (Ends-if (Leaves (length s)) (equal key opt_out_key) _ _ (opt_out_value-Leaves f d s h) tt)

doc_pair-RoundWithin :
    (f : ℕ) (d : Doc) (s : Bytes) → length s ≤ f → Ends (RoundWithin (length s)) (doc_pair f d s)
unfolding doc_pair
doc_pair-RoundWithin f d s h =
    Ends-and_then (λ r. length r.1 < length s) (RoundWithin (length s)) _ _
      (Ends-lift _ (doc_key-Leaves s))
      λ k p.
        Ends-and_then (Leaves (length k.1)) (RoundWithin (length s)) _ _
          (doc_value-Leaves f d k.0 k.1 (omega arith))
          λ r q. Ends-lift _ (
            Ensures-bind (skip_ws_and_comments r.1) _ (skip_ws_and_comments-Within r.1)
              λ s₁ h₁. RoundWithin-mono (omega arith) (separator-RoundWithin r.0 s₁))

Ends-RoundWithin :
    {S : Type 0} (m n : ℕ) (o : Outcome (Round S))
    → m ≤ n
    → Ends (RoundWithin m) o
    → Ends (RoundWithin n) o
Ends-RoundWithin m n (ok (again st r)) h p = omega arith
Ends-RoundWithin m n (ok (closed st r)) h p = omega arith
Ends-RoundWithin m n rejected h p = tt
Ends-RoundWithin m n out_of_fuel h p = p

doc_round-RoundWithin :
    (f : ℕ) (d : Doc) (s : Bytes) → length s ≤ f → Ends (RoundWithin (length s)) (doc_round f d s)
unfolding doc_round
doc_round-RoundWithin f d s h =
    Ends-and_then (Within (length s)) (RoundWithin (length s)) _ _
      (Ends-lift _ (skip_ws_and_comments-Within s))
      λ s₁ p.
        go s₁ p (consume_char 125 s₁) (consume_char-Within 125 s₁)
          (doc_pair-RoundWithin f d s₁ (omega arith))
  where
    go :
        (s₁ : Bytes)
        → Within (length s) s₁
        → (m : Option Bytes) → Ensures (λ r. length r < length s₁) m
        → Ends (RoundWithin (length s₁)) (doc_pair f d s₁)
        → Ends
            (RoundWithin (length s))
            (elim m [ some rest ↦ ok (closed d rest) | none ↦ doc_pair f d s₁ ])
    go s₁ p (some rest) (meets q) e = omega arith
    go s₁ p none q e = Ends-RoundWithin (length s₁) (length s) (doc_pair f d s₁) p e

pub doc_loop-Finishes :
    (f : ℕ) (d : Doc) (s : Bytes) → length s < f → Finishes (length s) (doc_loop f d s)
unfolding doc_loop
doc_loop-Finishes zero d s h = elim h [ ]
doc_loop-Finishes (suc f) d s h =
    go (λ i rest p. doc_loop-Finishes f i rest (omega arith)) (doc_round f d s)
      (doc_round-RoundWithin f d s (omega arith))
  where
    go :
        ((i : Doc) (rest : Bytes)
          → length rest < length s
          → Finishes (length rest) (doc_loop f i rest))
        → (m : Outcome (Round Doc)) → Ends (RoundWithin (length s)) m
        → Finishes (length s) (elim m [
          | rejected ↦ rejected
          | out_of_fuel ↦ out_of_fuel
          | ok (closed d' rest) ↦ ok (d', rest)
          | ok (again d' rest) ↦ doc_loop f d' rest
        ])
    go ih rejected p = tt
    go ih out_of_fuel p = p
    go ih (ok (closed i rest)) p = p
    go ih (ok (again i rest)) p =
        Finishes-mono (length rest) (length s) (doc_loop f i rest) (omega arith) (ih i rest p)

doc_start-Within : (doc : Bytes) → Ensures (Within (length doc)) (doc_start doc)
unfolding doc_start
doc_start-Within doc = Ensures-then (guard (not (has_nul doc))) _ λ _ _.
    Ensures-bind (skip_ws_and_comments doc) _ (skip_ws_and_comments-Within doc)
      λ s p. Ensures-mono (consume_char-Within 123 s) (λ r q. omega arith)

Ends-lift_any : {A : Type 0} (m : Option A) → Ends (λ _. Unit {0}) (lift m)
Ends-lift_any none = tt
Ends-lift_any (some a) = tt

parse_with-Ends : (f : ℕ) (doc : Bytes) → length doc < f → Ends (λ _. Unit {0}) (parse_with f doc)
unfolding parse_with
parse_with-Ends f doc h =
    Ends-and_then (Within (length doc)) (λ _. Unit {0}) _ _ (Ends-lift _ (doc_start-Within doc))
      λ s p.
        Ends-and_then (Leaves (length s)) (λ _. Unit {0}) _ _
          (Finishes-Ends (length s) (doc_loop f empty_doc s)
            (doc_loop-Finishes f empty_doc s (omega arith)))
          λ r q. Ends-lift_any (doc_end r.0 r.1)

-- With more fuel than the document has bytes, the parse rejects the document or yields a set, and
-- never runs out of fuel.
pub parse_with_total :
    (f : ℕ) (doc : Bytes)
    → length doc < f
    → (parse_with f doc ≡ rejected) ⊎ ((ids : IdSet) × (parse_with f doc ≡ ok ids))
parse_with_total f doc h = go (parse_with f doc) (parse_with-Ends f doc h)
  where
    go :
        (o : Outcome IdSet)
        → Ends (λ _. Unit {0}) o
        → (o ≡ rejected) ⊎ ((ids : IdSet) × (o ≡ ok ids))
    go (ok ids) p = inr (ids, refl)
    go rejected p = inl refl
    go out_of_fuel p = absurd p
